-- ===== src/Scheduling/Caps.antt =====
-- A schedule within the caps on a worker's days and week, and with the minimum gap between shifts.
use roster_ai.Base.{
  ℕ, ◌-◌, ◌≤◌, ◌≡◌, refl, true, ==_iff, str_eq, eq_iff, length, filter, All-map, inl, inr, arith,
  String, suc, ◌*◌, Any, subst,
}
use roster_ai.Contracts.Scheduling.{SelectedShift, ValidationFacts}
use roster_ai.Scheduling.Groups.{group_by, All-filter}
use roster_ai.Scheduling.Sorting.{Pairwise}
use roster_ai.Scheduling.Gaps.{sum_zero, gap-Apart}
use roster_ai.Scheduling.HardConstraints.{
  worker_of, day_eq, day_of, cap_of, sum_of, shifts_per_day, hours_and_gap, worker_excess,
  worker_gaps, minutes_over, plus, sum_fractions, whole,
}
use roster_ai.Scheduling.Rules.{Apart, WithinDay, WithinWeek, is_on, shifts_of}
use roster_ai.Scheduling.Lookups.{
  Any-map, filter-ext, cap_of-cases, plus_zero, sum_fractions_zero, day_key,
}

pub str_sound : (a b : String) → str_eq a b ≡ true → a ≡ b
str_sound a b = (eq_iff a b).0

day_sound : (a b : String × ℕ) → day_eq a b ≡ true → a ≡ b
day_sound a b h = λ i. (str_sound a.0 b.0 (ground arith) i, (==_iff a.1 b.1).0 (ground arith) i)

days_sound :
    (facts : ValidationFacts)
    → (shifts_per_day facts).satisfied ≡ true
    → (day : String × ℕ)
    → length (filter (λ s. day_eq (day_of s) day) facts.selected_shifts)
      ≤ cap_of 0 facts.max_shifts_per_day (worker_of facts day.0)
days_sound facts h =
    let groups = group_by day_eq day_of facts.selected_shifts in
    let cap = λ (k : String × ℕ). cap_of 0 facts.max_shifts_per_day (worker_of facts k.0) in
    All-filter day_eq (λ k vs. length vs ≤ cap k) day_sound (λ k. omega arith) day_of
      facts.selected_shifts
      (All-map (λ g. length g.1 - cap g.0 ≡ 0) (λ g. length g.1 ≤ cap g.0) groups
        (λ g e. omega (arith, e)) (sum_zero (λ g. length g.1 - cap g.0) groups ((==_iff _ 0).0 h)))

WithinDay-of :
    (facts : ValidationFacts) (k : String) (n : ℕ)
    → n ≤ cap_of 0 facts.max_shifts_per_day (worker_of facts k)
    → WithinDay facts k n
WithinDay-of facts k n h = elim (cap_of-cases 0 facts.max_shifts_per_day facts k (λ c. n ≤ c) h) [
  | inl e ↦ inl (omega (arith, e))
  | inr e ↦ inr e
]

pub WithinDay-sound :
    (facts : ValidationFacts)
    → (shifts_per_day facts).satisfied ≡ true
    → (worker : String) (day : ℕ)
    → WithinDay facts worker (length (filter (is_on worker day) facts.selected_shifts))
WithinDay-sound facts h worker day =
    WithinDay-of facts worker (length (filter (is_on worker day) facts.selected_shifts)) (
      subst (λ vs. length vs ≤ cap_of 0 facts.max_shifts_per_day (worker_of facts worker))
        (filter-ext (λ s. day_eq (day_of s) (worker, day)) (is_on worker day) facts.selected_shifts
          (day_key worker day))
        (days_sound facts h (worker, day)))

WithinWeek-of :
    (facts : ValidationFacts) (k : String) (minutes : ℕ)
    → (minutes_over
        (cap_of (whole 0) facts.max_hours_per_week (worker_of facts k))
        minutes).numerator
      ≡ 0
    → WithinWeek facts k minutes
WithinWeek-of facts k minutes h =
    elim (cap_of-cases (whole 0) facts.max_hours_per_week facts k
      (λ c. (minutes_over c minutes).numerator ≡ 0) h) [
        | inl e ↦ inl (omega (arith, e))
        | inr e ↦ inr (
            Any-map
              (λ w.
                (w.worker_id ≡ k)
                × Any (λ c. (c.0 ≡ w.employment_type) × ((minutes_over c.1 minutes).numerator ≡ 0))
                    facts.max_hours_per_week)
              (λ w.
                (w.worker_id ≡ k)
                × Any
                    (λ c.
                      (c.0 ≡ w.employment_type) × (minutes * suc c.1.below ≤ 60 * c.1.numerator))
                    facts.max_hours_per_week)
              facts.workers
              (λ w i. (
                i.0,
                Any-map
                    (λ c. (c.0 ≡ w.employment_type) × ((minutes_over c.1 minutes).numerator ≡ 0))
                    (λ c.
                      (c.0 ≡ w.employment_type) × (minutes * suc c.1.below ≤ 60 * c.1.numerator))
                    facts.max_hours_per_week (λ c j. (j.0, omega (arith, j.1))) i.1,
              ))
              e)
      ]

pub hours_sound :
    (facts : ValidationFacts)
    → (hours_and_gap facts).satisfied ≡ true
    → (worker : String)
    → WithinWeek facts worker (
        sum_of
          (λ (s : SelectedShift). s.effective_minutes)
          (shifts_of worker facts.selected_shifts))
hours_sound facts h =
    let groups = group_by str_eq (λ (s : SelectedShift). s.worker_id) facts.selected_shifts in
    let gaps = whole (sum_of (worker_gaps facts) groups) in
    let hours = sum_fractions (worker_excess facts) groups in
    All-filter str_eq
      (λ k vs. WithinWeek facts k (sum_of (λ (s : SelectedShift). s.effective_minutes) vs))
      str_sound (λ k. inl refl) (λ s. s.worker_id) facts.selected_shifts
      (All-map (λ g. (worker_excess facts g).numerator ≡ 0)
        (λ g. WithinWeek facts g.0 (sum_of (λ (s : SelectedShift). s.effective_minutes) g.1)) groups
        (λ g e. WithinWeek-of facts g.0 (sum_of (λ (s : SelectedShift). s.effective_minutes) g.1) e)
        (sum_fractions_zero (worker_excess facts) groups
          (plus_zero hours gaps ((==_iff (plus hours gaps).numerator 0).0 h)).0))

pub gaps_sound :
    (facts : ValidationFacts)
    → (hours_and_gap facts).satisfied ≡ true
    → (worker : String)
    → Pairwise (Apart facts.minimum_gap_minutes) (shifts_of worker facts.selected_shifts)
gaps_sound facts h =
    let groups = group_by str_eq (λ (s : SelectedShift). s.worker_id) facts.selected_shifts in
    let gaps = whole (sum_of (worker_gaps facts) groups) in
    let hours = sum_fractions (worker_excess facts) groups in
    All-filter str_eq (λ k vs. Pairwise (Apart facts.minimum_gap_minutes) vs) str_sound (λ k. tt)
      (λ s. s.worker_id) facts.selected_shifts
      (All-map (λ g. worker_gaps facts g ≡ 0) (λ g. Pairwise (Apart facts.minimum_gap_minutes) g.1)
        groups (λ g e. gap-Apart facts.minimum_gap_minutes g.1 e)
        (sum_zero (worker_gaps facts) groups
          (plus_zero hours gaps ((==_iff (plus hours gaps).numerator 0).0 h)).1))
