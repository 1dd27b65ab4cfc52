-- ===== src/Scheduling/HardConstraints.antt =====
-- `validate_hard_constraints` and `require_hard_constraints`, one definition for each check.
use Prim.Native.String.{slice, len}
use text.Mathlib.Text.{find?}
use roster_ai.Base.{
  ℕ, suc, ◌+◌, ◌-◌, ◌*◌, ◌/◌, String, Bool, true, false, not, ◌&&◌, ◌||◌, Option, none, some, List,
  [], ◌∷◌, ◌++◌, if◌then◌else◌, ltb, leb, ◌==◌, str_eq, any, null, length, filter, map, ◌⊎◌, inl,
  inr,
}
use roster_ai.Contracts.Scheduling.{
  Assignment, Lock, WorkerFact, SelectedShift, ValidationFacts, ConstraintResult, Fraction,
}
use roster_ai.Scheduling.Groups.{group_by}
use roster_ai.Scheduling.Sorting.{sorted}

-- {key: x for x in xs}[k]: the last one with the key
abbrev pub dict_get {ℓ} : {A : Type ℓ} → (A → Bool) → List A → Option A
dict_get p [] = none
dict_get p (x ∷ xs) =
    let rest = dict_get p xs in elim rest [ some y ↦ some y | none ↦ if p x then some x else none ]

abbrev pub worker_of : ValidationFacts → String → Option WorkerFact
worker_of facts k = dict_get (λ w. str_eq w.worker_id k) facts.workers

abbrev pub shift_of : ValidationFacts → Option String → Option SelectedShift
shift_of facts none = none
shift_of facts (some k) = dict_get (λ s. str_eq s.shift_id k) facts.selected_shifts

-- float(n)
abbrev pub whole : ℕ → Fraction
whole n = record { numerator = n; below = 0 }

-- `_result`; its id is "hard:" before its type, and its class is "hard"
abbrev pub result : String → Bool → Fraction → String → List String → ConstraintResult
result name satisfied measured unit ids = record {
  constraint_type = name;
  satisfied = satisfied;
  measured_value = measured;
  limit = 0;
  unit = unit;
  contributing_assignment_ids = ids;
}

abbrev pub is_outside : Option SelectedShift → Assignment → Bool
is_outside none a = true
is_outside (some s) a =
    not (str_eq s.worker_id a.worker_id)
    || ltb a.start_minute s.start_minute
    || ltb s.end_minute a.end_minute

abbrev pub inside_shift : List Assignment → ValidationFacts → ConstraintResult
inside_shift assignments facts =
    let outside = filter (λ a. is_outside (shift_of facts a.shift_id) a) assignments in
    result "assignment_inside_selected_shift" (null outside) (whole (length outside)) "assignments"
      (map (λ a. a.record_id) outside)

-- key=lambda value: (value.start_minute, value.end_minute)
abbrev pub starts_first : Assignment → Assignment → Bool
starts_first a b =
    ltb a.start_minute b.start_minute
    || a.start_minute == b.start_minute && leb a.end_minute b.end_minute

-- for left, right in zip(ordered, ordered[1:])
abbrev pub overlapping : List Assignment → List String
overlapping [] = []
overlapping (left ∷ rights) =
    let rest = overlapping rights in
    elim rights [
      | [] ↦ rest
      | right ∷ _ ↦
          if ltb right.start_minute left.end_minute
          then left.record_id ∷ right.record_id ∷ rest
          else rest
    ]

-- sum over the groups of a dict, and concatenation
abbrev pub sum_of {ℓ} : {A : Type ℓ} → (A → ℕ) → List A → ℕ
sum_of f [] = 0
sum_of f (x ∷ xs) = f x + sum_of f xs

abbrev pub concat_of {ℓ κ} : {A : Type ℓ} {B : Type κ} → (A → List B) → List A → List B
concat_of f [] = []
concat_of f (x ∷ xs) = f x ++ concat_of f xs

-- len(set(ids))
abbrev distinct : List String → ℕ
distinct [] = 0
distinct (x ∷ xs) = if any (str_eq x) xs then distinct xs else 1 + distinct xs

abbrev pub one_task : List Assignment → ValidationFacts → ConstraintResult
one_task assignments facts =
    let overlaps =
      concat_of (λ g. overlapping (sorted starts_first g.1))
        (group_by str_eq (λ a. a.worker_id) assignments) in
    result "one_task_per_working_slot" (null overlaps) (whole (distinct overlaps)) "assignments"
      overlaps

abbrev pub is_in_shift : String → Assignment → Bool
is_in_shift shift a = elim a.shift_id [ none ↦ false | some k ↦ str_eq k shift ]

abbrev pub shift_nonempty : List Assignment → ValidationFacts → ConstraintResult
shift_nonempty assignments facts =
    let empty =
      filter (λ s. not (any (is_in_shift s.shift_id) assignments)) facts.selected_shifts in
    result "selected_shift_nonempty" (null empty) (whole (length empty)) "shifts" []

-- equality of the keys (worker, window) and (worker, day)
abbrev pub slot_eq : String × String → String × String → Bool
slot_eq a b = str_eq a.0 b.0 && str_eq a.1 b.1

abbrev pub day_eq : String × ℕ → String × ℕ → Bool
day_eq a b = str_eq a.0 b.0 && a.1 == b.1

-- A Counter's count is the length of its group; max(0, count - 1) is the difference in ℕ.
abbrev pub one_per_window : ValidationFacts → ConstraintResult
one_per_window facts =
    let extra =
      sum_of (λ g. length g.1 - 1)
        (group_by slot_eq (λ s. (s.worker_id, s.window_id)) facts.selected_shifts) in
    result "one_shift_per_window" (extra == 0) (whole extra) "shifts" []

-- caps.get(worker.employment_type, otherwise), and `otherwise` for no worker
abbrev pub cap_of {ℓ} : {A : Type ℓ} → A → List (String × A) → Option WorkerFact → A
cap_of otherwise caps none = otherwise
cap_of otherwise caps (some w) = elim (dict_get (λ c. str_eq c.0 w.employment_type) caps) [
  | none ↦ otherwise
  | some c ↦ c.1
]

abbrev pub day_of : SelectedShift → String × ℕ
day_of s = (s.worker_id, s.start_minute / 1440)

abbrev pub shifts_per_day : ValidationFacts → ConstraintResult
shifts_per_day facts =
    let excess =
      sum_of (λ g. length g.1 - cap_of 0 facts.max_shifts_per_day (worker_of facts g.0.0))
        (group_by day_eq day_of facts.selected_shifts) in
    result "max_shifts_per_day" (excess == 0) (whole excess) "shifts" []

abbrev pub gap_violations : ℕ → List SelectedShift → ℕ
gap_violations gap [] = 0
gap_violations gap (left ∷ rights) =
    let rest = gap_violations gap rights in
    elim rights [
      | [] ↦ rest
      | right ∷ _ ↦ if ltb right.start_minute (gap + left.end_minute) then 1 + rest else rest
    ]

abbrev pub shift_starts_first : SelectedShift → SelectedShift → Bool
shift_starts_first a b = leb a.start_minute b.start_minute

-- p + q
abbrev pub plus : Fraction → Fraction → Fraction
plus p q = record {
  numerator = p.numerator * suc q.below + q.numerator * suc p.below;
  below = p.below * suc q.below + q.below;
}

abbrev pub sum_fractions {ℓ} : {A : Type ℓ} → (A → Fraction) → List A → Fraction
sum_fractions f [] = whole 0
sum_fractions f (x ∷ xs) = plus (f x) (sum_fractions f xs)

-- max(0.0, minutes - hours * 60); the difference of the numerators stops at 0
abbrev pub minutes_over : Fraction → ℕ → Fraction
minutes_over hours minutes = record {
  numerator = minutes * suc hours.below - hours.numerator * 60;
  below = hours.below;
}

abbrev pub worker_excess : ValidationFacts → String × List SelectedShift → Fraction
worker_excess facts g =
    minutes_over (cap_of (whole 0) facts.max_hours_per_week (worker_of facts g.0))
      (sum_of (λ (s : SelectedShift). s.effective_minutes) g.1)

abbrev pub worker_gaps : ValidationFacts → String × List SelectedShift → ℕ
worker_gaps facts g = gap_violations facts.minimum_gap_minutes (sorted shift_starts_first g.1)

abbrev pub hours_and_gap : ValidationFacts → ConstraintResult
hours_and_gap facts =
    let groups = group_by str_eq (λ s. s.worker_id) facts.selected_shifts in
    let combined =
      plus (sum_fractions (worker_excess facts) groups)
        (whole (sum_of (worker_gaps facts) groups)) in
    result "weekly_hours_and_minimum_gap" (combined.numerator == 0) combined "minutes_or_gaps" []

abbrev pub is_qualified : Option WorkerFact → String → Bool
is_qualified none task = false
is_qualified (some w) task = any (λ t. str_eq t task) w.qualified_tasks

abbrev pub qualification : List Assignment → ValidationFacts → ConstraintResult
qualification assignments facts =
    let unqualified =
      filter (λ a. not (is_qualified (worker_of facts a.worker_id) a.task_id)) assignments in
    result "worker_qualification" (null unqualified) (whole (length unqualified)) "assignments"
      (map (λ a. a.record_id) unqualified)

-- target_ref.partition(":"), its first and its last part
abbrev pub partition_colon : String → String × String
partition_colon s = elim (find? s ":") [
  | none ↦ (s, "")
  | some i ↦ (slice s 0 i, slice s (i + 1) (len s))
]

abbrev pub keeps_lock : Lock → Assignment → Bool
keeps_lock lock a =
    if str_eq lock.target_type "worker_shift"
    then str_eq a.worker_id (partition_colon lock.target_ref).0
      && is_in_shift (partition_colon lock.target_ref).1 a
    else elim a.lock_ref [ none ↦ false | some k ↦ str_eq k lock.record_id ]

abbrev pub locks_kept : List Assignment → List Lock → ConstraintResult
locks_kept assignments locks =
    let missing = filter (λ l. not (any (keeps_lock l) assignments)) locks in
    result "preserved_lock" (null missing) (whole (length missing)) "locks"
      (map (λ l. l.record_id) missing)

unfoldable pub validate_hard_constraints :
    List Assignment → ValidationFacts → List Lock → List ConstraintResult
unfolding group_by sorted
validate_hard_constraints assignments facts locks =
    inside_shift assignments facts
    ∷ one_task assignments facts
    ∷ shift_nonempty assignments facts
    ∷ one_per_window facts
    ∷ shifts_per_day facts
    ∷ hours_and_gap facts
    ∷ qualification assignments facts
    ∷ (if null locks then [] else locks_kept assignments locks ∷ [])

-- The failed checks' types, or the results when none failed.
unfoldable pub require_hard_constraints :
    List Assignment → ValidationFacts → List Lock → List String ⊎ List ConstraintResult
unfolding validate_hard_constraints
require_hard_constraints assignments facts locks =
    let results = validate_hard_constraints assignments facts locks in
    let failed = map (λ r. r.constraint_type) (filter (λ r. not r.satisfied) results) in
    if not (null failed) then inl failed else inr results
