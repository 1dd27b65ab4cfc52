-- ===== src/Scheduling/Exact.antt =====
-- The check `weekly_hours_and_minimum_gap`, both ways.
use roster_ai.Base.{suc, ◌*◌, ◌<◌, ◌≤◌, String}
use roster_ai.Contracts.Scheduling.{SelectedShift, ValidationFacts}
use roster_ai.Scheduling.Rules.{shifts_of}
use roster_ai.Scheduling.HardConstraints.{sum_of, whole, cap_of, worker_of}

abbrev IsPositive : SelectedShift → Type 0
IsPositive s = s.start_minute < s.end_minute

-- The worker's minutes are within the weekly cap, an hour being 60 minutes.
abbrev pub WithinHours : ValidationFacts → String → Type 0
WithinHours facts worker =
    sum_of (λ (s : SelectedShift). s.effective_minutes) (shifts_of worker facts.selected_shifts)
      * suc (cap_of (whole 0) facts.max_hours_per_week (worker_of facts worker)).below
    ≤ 60 * (cap_of (whole 0) facts.max_hours_per_week (worker_of facts worker)).numerator
