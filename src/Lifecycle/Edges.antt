-- ===== src/Lifecycle/Edges.antt =====
-- The edges between run statuses, stated apart from the code.
use roster_ai.Base.{◌≡◌, true, arith}
use roster_ai.Contracts.RunStatus.{
  RunStatus, solver_queued, solver_running, cancellation_requested, solver_completed,
  solver_infeasible, solver_timed_out, solver_cancelled, solver_failed, status_in, is_terminal,
  finalize_expected,
}

pub data EndsSolve : RunStatus → Type 0 where
  completes : EndsSolve solver_completed
  infeasible : EndsSolve solver_infeasible
  times_out : EndsSolve solver_timed_out
  fails : EndsSolve solver_failed

infix 40 ◌⟶◌ ◌⟶*◌
pub data ◌⟶◌ : RunStatus → RunStatus → Type 0 where
  start : solver_queued ⟶ solver_running
  cancel_queued : solver_queued ⟶ solver_cancelled
  queue_times_out : solver_queued ⟶ solver_timed_out
  queue_fails : solver_queued ⟶ solver_failed
  ask_cancel : solver_running ⟶ cancellation_requested
  end_running : {t : RunStatus} → EndsSolve t → solver_running ⟶ t
  end_asked : {t : RunStatus} → EndsSolve t → cancellation_requested ⟶ t
  cancel_asked : cancellation_requested ⟶ solver_cancelled

pub data ◌⟶*◌ : RunStatus → RunStatus → Type 0 where
  here : {s : RunStatus} → s ⟶* s
  more : {s t u : RunStatus} → s ⟶ t → t ⟶* u → s ⟶* u

pub ruleset edges = (
  start, cancel_queued, queue_times_out, queue_fails, ask_cancel, end_running, end_asked,
  cancel_asked, completes, infeasible, times_out, fails,
)

-- What `finalize_run`'s compare-and-set lets through is an edge.
pub finalize_edge :
    (s t : RunStatus) → is_terminal t ≡ true → status_in s (finalize_expected t) ≡ true → s ⟶ t
unfolding is_terminal finalize_expected
finalize_edge s t h k = grind (arith, edges)
