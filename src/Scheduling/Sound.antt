-- ===== src/Scheduling/Sound.antt =====
-- What a schedule that `require_hard_constraints` lets through has.
use roster_ai.Base.{
  ◌-◌, ◌≤◌, ◌≡◌, refl, Bool, true, false, not, Option, none, some, List, [], ◌∷◌, if◌then◌else◌,
  ==_iff, str_eq, eq_iff, any, null, length, filter, map, All, All-map, ◌⊎◌, inl, inr, Bool-cases,
  arith, String, Any, sym, ap, ◌∙◌, subst, Option-cases,
}
use roster_ai.Contracts.Scheduling.{
  Assignment, Lock, SelectedShift, ValidationFacts, ConstraintResult,
}
use roster_ai.Scheduling.Groups.{group_by, All-filter}
use roster_ai.Scheduling.Sorting.{sorted, Pairwise}
use roster_ai.Scheduling.Gaps.{null-filter, sum_zero, null-concat, overlapping-Disjoint}
use roster_ai.Scheduling.HardConstraints.{
  require_hard_constraints, validate_hard_constraints, worker_of, shift_of, is_outside, is_in_shift,
  slot_eq, is_qualified, keeps_lock, inside_shift, one_task, one_per_window, locks_kept,
  overlapping, starts_first,
}
use roster_ai.Scheduling.Rules.{
  IsInside, Disjoint, IsQualified, Honours, IsAdmissible, assignments_of,
}
use roster_ai.Scheduling.Lookups.{
  Any-map, any-Any, dict_get-Any, worker_of-Any, keys-Pairwise, keeps_lock-Honours,
}
use roster_ai.Scheduling.Caps.{str_sound, WithinDay-sound, hours_sound, gaps_sound}

not-false : (b : Bool) → not b ≡ false → b ≡ true
not-false true h = refl
not-false false h = cc

IsInside-of :
    (facts : ValidationFacts) (a : Assignment) (o : Option String)
    → a.shift_id ≡ o
    → is_outside (shift_of facts o) a ≡ false
    → Any (IsInside a) facts.selected_shifts
IsInside-of facts a none e h = cc
IsInside-of facts a (some k) e h = elim (Option-cases (shift_of facts (some k))) [
  | inl n ↦ absurd (ground (arith, h, n))
  | inr (s, p) ↦
      let fits : is_outside (some s) a ≡ false = rw p at h in
      Any-map (λ x. (str_eq x.shift_id k ≡ true) × (x ≡ s)) (IsInside a) facts.selected_shifts
        (λ x i. subst (IsInside a) (sym i.1) (record {
          named =
              e
              ∙ ap some
                  (sym ((eq_iff x.shift_id k).0 i.0) ∙ ap (λ (y : SelectedShift). y.shift_id) i.1);
          same_worker = (eq_iff s.worker_id a.worker_id).0 (ground (arith, fits));
          after_start = ground (arith, fits);
          before_end = ground (arith, fits);
        }))
        (dict_get-Any (λ (x : SelectedShift). str_eq x.shift_id k) facts.selected_shifts p)
]

IsInside-sound :
    (rows : List Assignment) (facts : ValidationFacts)
    → (inside_shift rows facts).satisfied ≡ true
    → All (λ a. Any (IsInside a) facts.selected_shifts) rows
IsInside-sound rows facts h =
    All-map (λ a. is_outside (shift_of facts a.shift_id) a ≡ false)
      (λ a. Any (IsInside a) facts.selected_shifts) rows
      (λ a e. IsInside-of facts a a.shift_id refl e)
      (null-filter (λ a. is_outside (shift_of facts a.shift_id) a) rows h)

alone_sound :
    (rows : List Assignment) (facts : ValidationFacts)
    → (one_task rows facts).satisfied ≡ true
    → (worker : String) → Pairwise Disjoint (assignments_of worker rows)
alone_sound rows facts h =
    All-filter str_eq (λ k vs. Pairwise Disjoint vs) str_sound (λ k. tt) (λ a. a.worker_id) rows
      (All-map (λ g. null (overlapping (sorted starts_first g.1)) ≡ true)
        (λ g. Pairwise Disjoint g.1) (group_by str_eq (λ a. a.worker_id) rows)
        (λ g e. overlapping-Disjoint g.1 e)
        (null-concat (λ g. overlapping (sorted starts_first g.1))
          (group_by str_eq (λ a. a.worker_id) rows) h))

slot_sound : (a b : String × String) → slot_eq a b ≡ true → a ≡ b
slot_sound a b h = λ i. (str_sound a.0 b.0 (ground arith) i, str_sound a.1 b.1 (ground arith) i)

windows_sound :
    (facts : ValidationFacts)
    → (one_per_window facts).satisfied ≡ true
    → (slot : String × String)
    → length (filter (λ s. slot_eq (s.worker_id, s.window_id) slot) facts.selected_shifts) ≤ 1
windows_sound facts h =
    let groups =
      group_by slot_eq (λ (s : SelectedShift). (s.worker_id, s.window_id)) facts.selected_shifts in
    All-filter slot_eq (λ k vs. length vs ≤ 1) slot_sound (λ k. omega arith)
      (λ s. (s.worker_id, s.window_id)) facts.selected_shifts
      (All-map (λ g. length g.1 - 1 ≡ 0) (λ g. length g.1 ≤ 1) groups (λ g e. omega (arith, e))
        (sum_zero (λ g. length g.1 - 1) groups ((==_iff _ 0).0 h)))

in_shift :
    (k : String) (a : Assignment) (o : Option String)
    → a.shift_id ≡ o
    → is_in_shift k a ≡ true
    → a.shift_id ≡ some k
in_shift k a none e h = absurd (ground (arith, e, h))
in_shift k a (some j) e h = e ∙ ap some ((eq_iff j k).0 (ground (arith, e, h)))

used_sound :
    (rows : List Assignment) (s : SelectedShift)
    → any (is_in_shift s.shift_id) rows ≡ true
    → Any (λ a. a.shift_id ≡ some s.shift_id) rows
used_sound rows s h =
    Any-map (λ a. is_in_shift s.shift_id a ≡ true) (λ a. a.shift_id ≡ some s.shift_id) rows
      (λ a e. in_shift s.shift_id a a.shift_id refl e) (any-Any (is_in_shift s.shift_id) rows h)

IsQualified-sound :
    (facts : ValidationFacts) (a : Assignment)
    → is_qualified (worker_of facts a.worker_id) a.task_id ≡ true
    → IsQualified facts a
IsQualified-sound facts a h = elim (Option-cases (worker_of facts a.worker_id)) [
  | inl e ↦ cc (rw e at h)
  | inr (w, e) ↦
      let task : any (λ t. str_eq t a.task_id) w.qualified_tasks ≡ true = rw e at h in
      Any-map (λ x. (x.worker_id ≡ a.worker_id) × (x ≡ w))
        (λ x. (x.worker_id ≡ a.worker_id) × Any (λ t. t ≡ a.task_id) x.qualified_tasks)
        facts.workers
        (λ x i. (
          i.0,
          Any-map (λ t. str_eq t a.task_id ≡ true) (λ t. t ≡ a.task_id) x.qualified_tasks
              (λ t j. (eq_iff t a.task_id).0 j)
              (any-Any (λ t. str_eq t a.task_id) x.qualified_tasks
                (subst (λ y. any (λ t. str_eq t a.task_id) y.qualified_tasks ≡ true) (sym i.1)
                  task)),
        ))
        (worker_of-Any facts a.worker_id e)
]

All-found {ℓ} :
    {A : Type ℓ} (p : A → Bool) (xs : List A)
    → null (filter (λ x. not (p x)) xs) ≡ true
    → All (λ x. p x ≡ true) xs
All-found p xs h =
    All-map (λ x. not (p x) ≡ false) (λ x. p x ≡ true) xs (λ x e. not-false (p x) e)
      (null-filter (λ x. not (p x)) xs h)

null-map {ℓ κ} :
    {A : Type ℓ} {B : Type κ} (f : A → B) (xs : List A) → null (map f xs) ≡ true → null xs ≡ true
null-map f [] h = refl
null-map f (x ∷ xs) h = cc

All-satisfied :
    (rs : List ConstraintResult) {out : List ConstraintResult}
    → ◌≡◌ {A = List String ⊎ List ConstraintResult}
        (let failed =
            map (λ (r : ConstraintResult). r.constraint_type) (filter (λ r. not r.satisfied) rs) in
          if not (null failed) then inl failed else inr rs)
        (inr out)
    → All (λ r. r.satisfied ≡ true) rs
All-satisfied rs h =
    let failed = filter (λ (r : ConstraintResult). not r.satisfied) rs in
    elim (Bool-cases (null (map (λ (r : ConstraintResult). r.constraint_type) failed))) [
      | inl e ↦
          All-found (λ r. r.satisfied) rs
            (null-map (λ (r : ConstraintResult). r.constraint_type) failed e)
      | inr e ↦ cc (rw e at h)
    ]

locks_sound :
    (rows : List Assignment) (locks : List Lock)
    → All (λ r. r.satisfied ≡ true) (if null locks then [] else locks_kept rows locks ∷ [])
    → All (λ l. any (keeps_lock l) rows ≡ true) locks
locks_sound rows [] h = tt
locks_sound rows (l ∷ ls) h = All-found (λ l. any (keeps_lock l) rows) (l ∷ ls) h.0

-- When require_hard_constraints returns results, the schedule obeys the rules: every assignment
-- lies in a selected shift of its worker, a worker's assignments do not overlap, every selected
-- shift is used, a worker has one shift in a window, a day's shifts, at 1440 minutes a day, and a
-- week's minutes, at 60 minutes an hour, are within the caps of the worker's employment type, a
-- worker's shifts are as far apart as the minimum gap, workers are qualified, and locks are kept.
pub require_hard_constraints-IsAdmissible :
    (assignments : List Assignment) (facts : ValidationFacts) (locks : List Lock)
    {results : List ConstraintResult}
    → require_hard_constraints assignments facts locks ≡ inr results
    → IsAdmissible assignments facts locks
unfolding require_hard_constraints validate_hard_constraints
require_hard_constraints-IsAdmissible rows facts locks h =
    let good = All-satisfied (validate_hard_constraints rows facts locks) h in
    record {
      inside = IsInside-sound rows facts good.0;
      alone = alone_sound rows facts good.1.0;
      used =
          All-map (λ s. any (is_in_shift s.shift_id) rows ≡ true)
            (λ s. Any (λ a. a.shift_id ≡ some s.shift_id) rows) facts.selected_shifts
            (used_sound rows)
            (All-found (λ s. any (is_in_shift s.shift_id) rows) facts.selected_shifts good.1.1.0);
      windows = keys-Pairwise facts.selected_shifts (windows_sound facts good.1.1.1.0);
      days = WithinDay-sound facts good.1.1.1.1.0;
      hours = hours_sound facts good.1.1.1.1.1.0;
      gaps = gaps_sound facts good.1.1.1.1.1.0;
      qualified =
          All-map (λ a. is_qualified (worker_of facts a.worker_id) a.task_id ≡ true)
            (IsQualified facts) rows (IsQualified-sound facts)
            (All-found (λ a. is_qualified (worker_of facts a.worker_id) a.task_id) rows
              good.1.1.1.1.1.1.0);
      kept =
          All-map (λ l. any (keeps_lock l) rows ≡ true) (λ l. Any (Honours l) rows) locks
            (λ l e.
              Any-map (λ a. keeps_lock l a ≡ true) (Honours l) rows (keeps_lock-Honours l)
                (any-Any (keeps_lock l) rows e))
            (locks_sound rows locks good.1.1.1.1.1.1.1);
    }
