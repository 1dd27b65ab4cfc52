-- ===== src/UseCases/Worker.antt =====
-- The worker: `lease_and_execute_schedule_run` and `execute_schedule_run`. Telemetry, which never
-- changes what these do, is left out; the heartbeat thread's renewals are calls of other sessions.
use roster_ai.Base.{ℕ, String, Bool, true, false, Option, none, some, List, if◌then◌else◌, ltb}
use roster_ai.Contracts.RunStatus.{
  RunStatus, is_terminal, solver_queued, solver_running, solver_cancelled, solver_failed,
  cancellation_requested,
}
use roster_ai.Contracts.JobLease.{Uuid, JobLease}
use roster_ai.Contracts.Scheduling.{RunSnapshot, SolverOutcome, unknown, ConstraintResult}
use roster_ai.Store.{
  World, Fault, fatal_job, run_transition_conflict, illegal_transition, value_error,
}
use roster_ai.Store.Tx.{Tx, Result, ok, raised, pure, raise, require, transaction, ◌>>=◌, ◌>>◌}
use roster_ai.Repository.Rows.{RunState, get_run_state, load_snapshot}
use roster_ai.Repository.Transitions.{mark_running, finalize_run}
use roster_ai.Repository.Jobs.{complete_job, fail_job, lease_next_job}
use roster_ai.Lifecycle.Calls.{Call}
use roster_ai.UseCases.Finalize.{finalize_schedule_run, FinalizedScheduleRun}
use roster_ai.UseCases.Sessions.{read, session, elsewhere}

-- `LeaseOutcomeV1`
pub record LeaseOutcome : Type 0 where
  pub job_id : Uuid
  pub attempt_id : Option Uuid
  pub schedule_run_id : Uuid
  pub status : RunStatus

-- `_outcome`
abbrev pub outcome_of : JobLease → RunStatus → LeaseOutcome
outcome_of lease status = record {
  job_id = lease.job_id;
  attempt_id = lease.attempt_id;
  schedule_run_id = lease.schedule_run_id;
  status = status;
}

-- `_FATAL_EXECUTION_ERRORS`
abbrev pub is_fatal : Fault → Bool
is_fatal fatal_job = true
is_fatal run_transition_conflict = true
is_fatal illegal_transition = true
is_fatal _ = false

-- What `scheduler.solve` did: an outcome, or an exception with the `code` that it may have.
pub data Solved : Type 0 where
  outcome : SolverOutcome → Solved
  exception : Option String → Solved

abbrev or_adapter_failed : Option String → String
or_adapter_failed none = "solver_adapter_failed"
or_adapter_failed (some code) = code

abbrev pub solver_outcome : Solved → SolverOutcome
solver_outcome (outcome o) = o
solver_outcome (exception code) = record {
  solver_status = unknown;
  assignments = List.[];
  validation_facts = none;
  reason = some (or_adapter_failed code);
}

-- What other sessions commit around the worker's transactions: before A, in A, in its second round,
-- before B, in B (while the solver runs), before the recovery, and in the recovery.
pub record Interleaving : Type 0 where
  pub before_a : List Call
  pub in_a : List Call
  pub in_second_round : List Call
  pub before_b : List Call
  pub in_b : List Call
  pub before_recovery : List Call
  pub in_recovery : List Call

-- What transaction A leaves to do.
pub data Next : Type 0 where
  solve : RunSnapshot → Next
  finished : RunStatus → Next

module _ (candidate_metrics : SolverOutcome → RunSnapshot → Result (List ConstraintResult))
    (scheduler : RunSnapshot → Solved) (lease : JobLease) where
  -- finalize_run(status, reason, candidate=None, request_id=lease.attempt_id)
  abbrev pub end_run : RunStatus → String → Tx (Unit {0})
  end_run status reason =
      finalize_run lease.schedule_run_id lease.site_id lease.fencing_epoch status (some reason) none
        none lease.attempt_id

  abbrev pub finish_job : Tx (Unit {0})
  finish_job = complete_job lease.job_id lease.site_id lease.fencing_epoch

  -- except RunTransitionConflictError
  abbrev pub unless_conflict : RunSnapshot → Tx Next → Result ℕ → Tx Next
  unless_conflict snapshot on_conflict (ok first_event_at) = pure (solve snapshot)
  unless_conflict snapshot on_conflict (raised run_transition_conflict) = on_conflict
  unless_conflict snapshot on_conflict (raised e) = raise e

  abbrev pub start_run : RunSnapshot → Tx Next → Tx Next
  start_run snapshot on_conflict w =
      let started =
        mark_running lease.schedule_run_id lease.site_id lease.fencing_epoch lease.attempt_id w in
      unless_conflict snapshot on_conflict started.0 started.1

  -- One round of `for attempt in (1, 2)`, after its read.
  abbrev pub attempt_round : RunSnapshot → Tx Next → Option RunState → Tx Next
  attempt_round snapshot on_conflict none = raise fatal_job
  attempt_round snapshot on_conflict (some state) = elim state.status [
    | solver_queued ↦ start_run snapshot on_conflict
    | solver_running ↦ pure (solve snapshot)
    | cancellation_requested ↦
        end_run solver_cancelled "cancelled" >> finish_job >> pure (finished solver_cancelled)
    | status ↦ finish_job >> pure (finished status)
  ]

  -- The second round, whose conflict is raised; `between` is what other sessions commit between its
  -- read and its compare-and-set.
  abbrev pub second_round : List Call → RunSnapshot → Tx Next
  second_round between snapshot = do
    state ← get_run_state lease.schedule_run_id lease.site_id
    elsewhere between
    attempt_round snapshot (raise run_transition_conflict) state

  abbrev pub with_snapshot : List Call → World → Option RunSnapshot → Tx Next
  with_snapshot between before none = raise fatal_job
  with_snapshot between before (some snapshot) = do
    state ← read before (get_run_state lease.schedule_run_id lease.site_id)
    attempt_round snapshot (second_round between snapshot) state

  -- Transaction A
  unfoldable pub transaction_a : List Call → World → Tx Next
  unfolding load_snapshot get_run_state mark_running finalize_run complete_job
  transaction_a between before = do
    snapshot ← read before (load_snapshot lease.schedule_run_id lease.site_id)
    with_snapshot between before snapshot

  -- `execute_schedule_run`, called with its three heartbeat arguments; an exception of the solver is
  -- an outcome
  unfoldable pub execute_schedule_run : RunSnapshot → ℕ → Tx FinalizedScheduleRun
  unfolding finalize_schedule_run
  execute_schedule_run snapshot lease_seconds = do
    require (ltb 0 lease_seconds) value_error
    finalize_schedule_run candidate_metrics snapshot (solver_outcome (scheduler snapshot))
        lease.site_id lease.fencing_epoch lease.attempt_id

  abbrev pub solve_or_stop : RunSnapshot → ℕ → Option RunState → Tx RunStatus
  solve_or_stop snapshot lease_seconds none = raise fatal_job
  solve_or_stop snapshot lease_seconds (some state) = elim state.status [
    | cancellation_requested ↦ end_run solver_cancelled "cancelled" >> pure solver_cancelled
    | solver_running ↦
        execute_schedule_run snapshot lease_seconds >>= λ finalized. pure finalized.status
    | status ↦ pure status
  ]

  -- Transaction B
  unfoldable pub transaction_b : RunSnapshot → ℕ → World → Tx RunStatus
  unfolding get_run_state finalize_run complete_job execute_schedule_run
  transaction_b snapshot lease_seconds before = do
    state ← read before (get_run_state lease.schedule_run_id lease.site_id)
    status ← solve_or_stop snapshot lease_seconds state
    finish_job
    pure status

  abbrev pub go_on : Interleaving → ℕ → Next → Tx RunStatus
  go_on others lease_seconds (finished status) = pure status
  go_on others lease_seconds (solve snapshot) =
      elsewhere others.before_b >> session others.in_b (transaction_b snapshot lease_seconds)

  -- `_execute_leased_schedule_run`
  unfoldable pub execute_leased : Interleaving → ℕ → Tx RunStatus
  unfolding elsewhere session transaction_a transaction_b
  execute_leased others lease_seconds = do
    elsewhere others.before_a
    next ← session others.in_a (transaction_a others.in_second_round)
    go_on others lease_seconds next

  -- The status and the reason that a fatal failure leaves on a run.
  abbrev pub failure_status : RunStatus → RunStatus × String
  failure_status cancellation_requested = (solver_cancelled, "cancelled")
  failure_status _ = (solver_failed, "job_execution_failed")

  abbrev pub record_failure : Fault → Option RunState → Tx RunStatus
  record_failure cause none = raise cause
  record_failure cause (some state) =
      if is_terminal state.status
      then fail_job lease.job_id lease.site_id lease.fencing_epoch >> pure state.status
      else end_run (failure_status state.status).0 (failure_status state.status).1
        >> fail_job lease.job_id lease.site_id lease.fencing_epoch
        >> pure (failure_status state.status).0

  -- except BaseException: raise cause
  abbrev pub or_cause {ℓ} : {A : Type ℓ} → Fault → Result A → Tx A
  or_cause cause (ok a) = pure a
  or_cause cause (raised e) = raise cause

  -- `_record_fatal_failure`
  unfoldable pub record_fatal_failure : Interleaving → Fault → Tx RunStatus
  unfolding session get_run_state finalize_run fail_job is_terminal
  record_fatal_failure others cause w =
      let done =
        session others.in_recovery
          (λ before.
            read before (get_run_state lease.schedule_run_id lease.site_id)
            >>= record_failure cause)
          w in
      or_cause cause done.0 done.1

  abbrev pub recover : Interleaving → Result RunStatus → Tx RunStatus
  recover others (ok status) = pure status
  recover others (raised e) =
      if is_fatal e
      then elsewhere others.before_recovery >> record_fatal_failure others e
      else raise e

module _ (candidate_metrics : SolverOutcome → RunSnapshot → Result (List ConstraintResult))
    (scheduler : RunSnapshot → Solved) (others : Interleaving) where
  abbrev pub work_on : ℕ → Option JobLease → Tx (Option LeaseOutcome)
  work_on lease_seconds none w = (ok none, w)
  work_on lease_seconds (some lease) w =
      let done = execute_leased candidate_metrics scheduler lease others lease_seconds w in
      (recover candidate_metrics scheduler lease others done.0 >>= λ status.
      pure (some (outcome_of lease status)))
        done.1

  -- `lease_and_execute_schedule_run`
  unfoldable pub lease_and_execute_schedule_run : String → ℕ → Tx (Option LeaseOutcome)
  unfolding transaction lease_next_job execute_leased record_fatal_failure
  lease_and_execute_schedule_run owner lease_seconds = do
    lease ← transaction (lease_next_job owner lease_seconds)
    work_on lease_seconds lease
