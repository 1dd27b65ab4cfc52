-- ===== src/Scheduling/Rules.antt =====
-- The rules of a schedule, stated without the dictionaries, groups, sorting and counters of the check
-- (backend/application/scheduling/hard_constraints.py).
use roster_ai.Base.{
  ℕ, suc, ◌+◌, ◌*◌, ◌≤◌, ◌≡◌, ◌≢◌, Bool, ◌&&◌, some, List, str_eq, leb, ltb, length, filter, All,
  Any, ◌⊎◌, String,
}
use roster_ai.Contracts.Scheduling.{Assignment, Lock, SelectedShift, ValidationFacts}
use roster_ai.Scheduling.Sorting.{Pairwise}
use roster_ai.Scheduling.HardConstraints.{sum_of, partition_colon}

-- The assignment lies in a selected shift that it names, and that shift is its worker's.
pub record IsInside (a : Assignment) (s : SelectedShift) : Type 0 where
  pub named : a.shift_id ≡ some s.shift_id
  pub same_worker : s.worker_id ≡ a.worker_id
  pub after_start : s.start_minute ≤ a.start_minute
  pub before_end : a.end_minute ≤ s.end_minute

-- One ends before the other begins.
abbrev pub Disjoint : Assignment → Assignment → Type 0
Disjoint a b = (a.end_minute ≤ b.start_minute) ⊎ (b.end_minute ≤ a.start_minute)

-- One ends at least `gap` minutes before the other begins.
abbrev pub Apart : ℕ → SelectedShift → SelectedShift → Type 0
Apart gap a b = (gap + a.end_minute ≤ b.start_minute) ⊎ (gap + b.end_minute ≤ a.start_minute)

abbrev pub SameSlot : SelectedShift → SelectedShift → Type 0
SameSlot s t = (s.worker_id ≡ t.worker_id) × (s.window_id ≡ t.window_id)

abbrev pub assignments_of : String → List Assignment → List Assignment
assignments_of k = filter (λ a. str_eq a.worker_id k)

abbrev pub shifts_of : String → List SelectedShift → List SelectedShift
shifts_of k = filter (λ s. str_eq s.worker_id k)

-- A day has 24 * 60 minutes.
abbrev pub is_on : String → ℕ → SelectedShift → Bool
is_on k day s =
    str_eq s.worker_id k
    && (leb (day * 1440) s.start_minute && ltb s.start_minute (day * 1440 + 1440))

-- No shift on the day, or a cap that they are within.
abbrev pub WithinDay : ValidationFacts → String → ℕ → Type 0
WithinDay facts worker n =
    (n ≡ 0)
    ⊎ Any
        (λ w.
          (w.worker_id ≡ worker)
          × Any (λ c. (c.0 ≡ w.employment_type) × (n ≤ c.1)) facts.max_shifts_per_day)
        facts.workers

-- No minutes in the week, or a cap of hours, of 60 minutes each, that they are within.
abbrev pub WithinWeek : ValidationFacts → String → ℕ → Type 0
WithinWeek facts worker minutes =
    (minutes ≡ 0)
    ⊎ Any
        (λ w.
          (w.worker_id ≡ worker)
          × Any (λ c. (c.0 ≡ w.employment_type) × (minutes * suc c.1.below ≤ 60 * c.1.numerator))
              facts.max_hours_per_week)
        facts.workers

abbrev pub IsQualified : ValidationFacts → Assignment → Type 0
IsQualified facts a =
    Any (λ w. (w.worker_id ≡ a.worker_id) × Any (λ t. t ≡ a.task_id) w.qualified_tasks)
      facts.workers

-- The assignment keeps the lock: of a worker's shift, by being that worker's in that shift, and of
-- another kind by its reference.
pub data Honours (l : Lock) (a : Assignment) : Type 0 where
  same_shift :
      l.target_type ≡ "worker_shift"
      → a.worker_id ≡ (partition_colon l.target_ref).0
      → a.shift_id ≡ some (partition_colon l.target_ref).1
      → Honours l a
  by_reference : l.target_type ≢ "worker_shift" → a.lock_ref ≡ some l.record_id → Honours l a

pub record IsAdmissible (assignments : List Assignment) (facts : ValidationFacts)
    (locks : List Lock) : Type 0 where
  pub inside : All (λ a. Any (IsInside a) facts.selected_shifts) assignments
  pub alone : (worker : String) → Pairwise Disjoint (assignments_of worker assignments)
  pub used : All (λ s. Any (λ a. a.shift_id ≡ some s.shift_id) assignments) facts.selected_shifts
  pub windows : Pairwise (λ s t. ¬ (SameSlot s t)) facts.selected_shifts
  pub days :
      (worker : String) (day : ℕ)
      → WithinDay facts worker (length (filter (is_on worker day) facts.selected_shifts))
  pub hours :
      (worker : String)
      → WithinWeek facts worker (
          sum_of
            (λ (s : SelectedShift). s.effective_minutes)
            (shifts_of worker facts.selected_shifts))
  pub gaps :
      (worker : String)
      → Pairwise (Apart facts.minimum_gap_minutes) (shifts_of worker facts.selected_shifts)
  pub qualified : All (IsQualified facts) assignments
  pub kept : All (λ l. Any (Honours l) assignments) locks
