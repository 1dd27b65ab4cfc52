-- ===== src/Contracts/RunStatus.antt =====
-- `ScheduleRunStatusV1`, `RUN_EVENT_TYPES` (backend/application/contracts/schedule_version.py) and
-- the closed sets of statuses that the adapter and the worker test against.
use roster_ai.Base.{String, Bool, true, false, List, [], ◌∷◌, ◌≡◌, arith}
use mathlib.Core.Bool.{◌||◌}

pub data RunStatus : Type 0 where
  solver_queued solver_running cancellation_requested solver_completed solver_infeasible
        solver_timed_out solver_cancelled solver_failed :
      RunStatus

abbrev pub status_eq : RunStatus → RunStatus → Bool
status_eq solver_queued solver_queued = true
status_eq solver_running solver_running = true
status_eq cancellation_requested cancellation_requested = true
status_eq solver_completed solver_completed = true
status_eq solver_infeasible solver_infeasible = true
status_eq solver_timed_out solver_timed_out = true
status_eq solver_cancelled solver_cancelled = true
status_eq solver_failed solver_failed = true
status_eq _ _ = false

pub eq_of_status_eq : (s t : RunStatus) → status_eq s t ≡ true → s ≡ t
eq_of_status_eq s t h = ground arith

-- `status in statuses`
abbrev pub status_in : RunStatus → List RunStatus → Bool
status_in s [] = false
status_in s (t ∷ ts) = status_eq s t || status_in s ts

-- RUN_EVENT_TYPES[status]
unfoldable pub run_event_types : RunStatus → String
run_event_types solver_queued = "run.queued.v1"
run_event_types solver_running = "run.running.v1"
run_event_types cancellation_requested = "run.cancellation_requested.v1"
run_event_types solver_completed = "run.completed.v1"
run_event_types solver_infeasible = "run.infeasible.v1"
run_event_types solver_timed_out = "run.timed_out.v1"
run_event_types solver_cancelled = "run.cancelled.v1"
run_event_types solver_failed = "run.failed.v1"

-- `_FINALIZE_STATUSES` of the adapter, `_TERMINAL_STATUSES` of the worker
unfoldable pub is_terminal : RunStatus → Bool
is_terminal solver_completed = true
is_terminal solver_infeasible = true
is_terminal solver_timed_out = true
is_terminal solver_cancelled = true
is_terminal solver_failed = true
is_terminal _ = false

-- `_FINALIZE_EXPECTED_STATUSES[status]`; the adapter looks terminal statuses up only
unfoldable pub finalize_expected : RunStatus → List RunStatus
finalize_expected solver_completed = solver_running ∷ cancellation_requested ∷ []
finalize_expected solver_infeasible = solver_running ∷ cancellation_requested ∷ []
finalize_expected solver_timed_out = solver_queued ∷ solver_running ∷ cancellation_requested ∷ []
finalize_expected solver_cancelled = cancellation_requested ∷ []
finalize_expected solver_failed = solver_queued ∷ solver_running ∷ cancellation_requested ∷ []
finalize_expected _ = []

-- `NON_TERMINAL_RUN_STATUSES` of enqueue_compute.py
abbrev pub non_terminal : List RunStatus
non_terminal = solver_queued ∷ solver_running ∷ cancellation_requested ∷ []
