-- ===== src/UseCases/WorkerCalls.antt =====
-- A worker's transactions, as sequences of committed calls.
use roster_ai.Base.{ℕ, String, ◌≡◌, refl, subst, ap, Option, none, some, List, ltb}
use roster_ai.Contracts.RunStatus.{
  RunStatus, solver_queued, solver_running, solver_cancelled, cancellation_requested,
}
use roster_ai.Contracts.JobLease.{Instant, JobLease}
use roster_ai.Contracts.Scheduling.{RunSnapshot, SolverOutcome, ConstraintResult}
use roster_ai.Store.{World, fatal_job, run_transition_conflict, value_error}
use roster_ai.Store.Tx.{Tx, Result, ok, raised, pure, raise, ◌>>=◌, ◌>>◌}
use roster_ai.Repository.Rows.{RunState, get_run_state, load_snapshot}
use roster_ai.Repository.Transitions.{mark_running}
use roster_ai.Lifecycle.Calls.{Call}
use roster_ai.UseCases.Sessions.{session, elsewhere}
use roster_ai.UseCases.Commits.{
  Commits-elsewhere, Commits, Leaves, IsReached, IsReached-refl, IsReached-trans, Commits-pure,
  Commits-raise, Commits-read, Commits->>=, Commits-require, Leaves->>=, Leaves-elsewhere,
  Leaves-session,
}
use roster_ai.UseCases.Worker.{
  Solved, Interleaving, Next, solve, finished, end_run, finish_job, unless_conflict, start_run,
  attempt_round, second_round, with_snapshot, transaction_a, execute_schedule_run, solve_or_stop,
  transaction_b, go_on, execute_leased, solver_outcome,
}
use roster_ai.UseCases.StepCalls.{
  finalize-Commits, complete-Commits, conflict_reaches, mark-Commits, state-Commits,
  finalization-Commits,
}
use roster_ai.Store.Tx.{raised_is_no_value}

module _ (candidate_metrics : SolverOutcome → RunSnapshot → Result (List ConstraintResult))
    (scheduler : RunSnapshot → Solved) (lease : JobLease) where
  finish-Commits : Commits (finish_job candidate_metrics scheduler lease)
  finish-Commits = complete-Commits lease.job_id lease.site_id lease.fencing_epoch

  pub end-Commits :
      (status : RunStatus) (reason : String)
      → Commits (end_run candidate_metrics scheduler lease status reason)
  end-Commits status reason =
      finalize-Commits lease.schedule_run_id lease.site_id lease.fencing_epoch status (some reason)
        none none lease.attempt_id

  marked_reaches :
      (snapshot : RunSnapshot) (on_conflict : Tx Next) (w : World) (r : Result Instant) (v : World)
      → mark_running lease.schedule_run_id lease.site_id lease.fencing_epoch lease.attempt_id w
        ≡ (r, v)
      → Commits on_conflict
      → (a : Next) (w' : World)
      → unless_conflict candidate_metrics scheduler lease snapshot on_conflict r v ≡ (ok a, w')
      → IsReached w w'
  marked_reaches snapshot on_conflict w (ok t) v e k a w' h =
      IsReached-trans w v w'
        (mark-Commits lease.schedule_run_id lease.site_id lease.fencing_epoch lease.attempt_id w t v
          e)
        (Commits-pure (solve snapshot) v a w' h)
  marked_reaches snapshot on_conflict w (raised run_transition_conflict) v e k a w' h =
      IsReached-trans w v w'
        (subst (IsReached w) (ap (λ (p : Result Instant × World). p.1) e) (
          conflict_reaches lease.schedule_run_id lease.site_id lease.fencing_epoch lease.attempt_id
            w (ap (λ (p : Result Instant × World). p.0) e)))
        (k v a w' h)
  marked_reaches snapshot on_conflict w (raised other) v e k a w' h = absurd (raised_is_no_value h)

  start-Commits :
      (snapshot : RunSnapshot) (on_conflict : Tx Next)
      → Commits on_conflict
      → Commits (start_run candidate_metrics scheduler lease snapshot on_conflict)
  start-Commits snapshot on_conflict k w a w' h =
      let r =
        mark_running lease.schedule_run_id lease.site_id lease.fencing_epoch lease.attempt_id w in
      marked_reaches snapshot on_conflict w r.0 r.1 refl k a w' h

  cancelled-Commits : Commits (
      end_run candidate_metrics scheduler lease solver_cancelled "cancelled"
      >> finish_job candidate_metrics scheduler lease
      >> pure (finished solver_cancelled))
  cancelled-Commits =
      Commits->>= _ _
        (Commits->>= _ _ (end-Commits solver_cancelled "cancelled") (λ u. finish-Commits))
        (λ u. Commits-pure _)

  ended-Commits :
      (status : RunStatus)
      → Commits (finish_job candidate_metrics scheduler lease >> pure (finished status))
  ended-Commits status = Commits->>= _ _ finish-Commits (λ u. Commits-pure _)

  round-Commits :
      (snapshot : RunSnapshot) (on_conflict : Tx Next) (state : Option RunState)
      → Commits on_conflict
      → Commits (attempt_round candidate_metrics scheduler lease snapshot on_conflict state)
  round-Commits snapshot on_conflict none k = Commits-raise fatal_job
  round-Commits snapshot on_conflict (some state) k = by_status state.status
    where
      by_status :
          (status : RunStatus)
          → Commits (
              attempt_round candidate_metrics scheduler lease snapshot on_conflict
                (some (record { status = status; resource_version = 0 })))
      by_status solver_queued = start-Commits snapshot on_conflict k
      by_status solver_running = Commits-pure _
      by_status cancellation_requested = cancelled-Commits
      by_status status = ended-Commits status

  second-Commits :
      (between : List Call) (snapshot : RunSnapshot)
      → Commits (second_round candidate_metrics scheduler lease between snapshot)
  second-Commits between snapshot =
      Commits->>= (get_run_state lease.schedule_run_id lease.site_id) _
        (state-Commits lease.schedule_run_id lease.site_id)
        λ state. Commits->>= (elsewhere between) _ (Commits-elsewhere between) λ u.
          round-Commits snapshot (raise run_transition_conflict) state
            (Commits-raise run_transition_conflict)

  with_snapshot-Commits :
      (between : List Call) (before : World) (snapshot : Option RunSnapshot)
      → Commits (with_snapshot candidate_metrics scheduler lease between before snapshot)
  with_snapshot-Commits between before none = Commits-raise fatal_job
  with_snapshot-Commits between before (some snapshot) =
      Commits->>= _ _ (Commits-read before (get_run_state lease.schedule_run_id lease.site_id))
        λ state. round-Commits snapshot _ state (second-Commits between snapshot)

  pub transaction_a-Commits :
      (between : List Call) (before : World)
      → Commits (transaction_a candidate_metrics scheduler lease between before)
  unfolding transaction_a
  transaction_a-Commits between before =
      Commits->>= _ _ (Commits-read before (load_snapshot lease.schedule_run_id lease.site_id))
        λ snapshot. with_snapshot-Commits between before snapshot

  execute-Commits :
      (snapshot : RunSnapshot) (lease_seconds : ℕ)
      → Commits (execute_schedule_run candidate_metrics scheduler lease snapshot lease_seconds)
  unfolding execute_schedule_run
  execute-Commits snapshot lease_seconds =
      Commits->>= _ _ (Commits-require (ltb 0 lease_seconds) value_error) λ u.
        finalization-Commits candidate_metrics snapshot (solver_outcome (scheduler snapshot))
          lease.site_id lease.fencing_epoch lease.attempt_id

  solve_or_stop-Commits :
      (snapshot : RunSnapshot) (lease_seconds : ℕ) (state : Option RunState)
      → Commits (solve_or_stop candidate_metrics scheduler lease snapshot lease_seconds state)
  solve_or_stop-Commits snapshot lease_seconds none = Commits-raise fatal_job
  solve_or_stop-Commits snapshot lease_seconds (some state) = by_status state.status
    where
      by_status :
          (status : RunStatus)
          → Commits (
              solve_or_stop candidate_metrics scheduler lease snapshot lease_seconds
                (some (record { status = status; resource_version = 0 })))
      by_status cancellation_requested =
          Commits->>= _ _ (end-Commits solver_cancelled "cancelled") (λ u. Commits-pure _)
      by_status solver_running =
          Commits->>= _ _ (execute-Commits snapshot lease_seconds) (λ u. Commits-pure _)
      by_status status = Commits-pure _

  transaction_b-Commits :
      (snapshot : RunSnapshot) (lease_seconds : ℕ) (before : World)
      → Commits (transaction_b candidate_metrics scheduler lease snapshot lease_seconds before)
  unfolding transaction_b
  transaction_b-Commits snapshot lease_seconds before =
      Commits->>= _ _ (Commits-read before (get_run_state lease.schedule_run_id lease.site_id))
        λ state.
          Commits->>= _ _ (solve_or_stop-Commits snapshot lease_seconds state)
            λ status. Commits->>= _ _ finish-Commits (λ u. Commits-pure status)

  go_on-Leaves :
      (others : Interleaving) (lease_seconds : ℕ) (next : Next)
      → Leaves (go_on candidate_metrics scheduler lease others lease_seconds next)
  go_on-Leaves others lease_seconds (finished status) = IsReached-refl
  go_on-Leaves others lease_seconds (solve snapshot) =
      Leaves->>= (elsewhere others.before_b) _ (Leaves-elsewhere others.before_b) λ u.
        Leaves-session others.in_b
          (transaction_b candidate_metrics scheduler lease snapshot lease_seconds)
          (transaction_b-Commits snapshot lease_seconds)

  pub execute_leased-Leaves :
      (others : Interleaving) (lease_seconds : ℕ)
      → Leaves (execute_leased candidate_metrics scheduler lease others lease_seconds)
  unfolding execute_leased
  execute_leased-Leaves others lease_seconds =
      let block = transaction_a candidate_metrics scheduler lease others.in_second_round in
      let first = session others.in_a block in
      let next = go_on candidate_metrics scheduler lease others lease_seconds in
      Leaves->>= {B = RunStatus} (elsewhere others.before_a) (λ u. first >>= next)
        (Leaves-elsewhere others.before_a)
        λ u.
          Leaves->>= first next
            (Leaves-session others.in_a block (transaction_a-Commits others.in_second_round))
            (go_on-Leaves others lease_seconds)
