-- ===== src/UseCases/WorkerOutcomes.antt =====
-- A worker that returns an outcome has ended the run and the job.
use roster_ai.UseCases.WorkerEnds.{
  IsStarted, IsStarted-later, HasSettled, AfterA, finish_settles, transaction_a-AfterA,
}
use roster_ai.Base.{ℕ, ◌≡◌, refl, sym, ◌∙◌, ap, subst, true, false, Option, none, some, List, ltb}
use mathlib.Core.Option
use roster_ai.Contracts.RunStatus.{
  RunStatus, status_eq, is_terminal, solver_queued, solver_running, solver_completed,
  solver_cancelled, cancellation_requested,
}
use roster_ai.Contracts.JobLease.{JobLease}
use roster_ai.Contracts.Scheduling.{RunSnapshot, SolverOutcome, ConstraintResult}
use roster_ai.Store.{World, ScheduleRun, value_error}
use roster_ai.Store.Tx.{
  Tx, Result, ok, pure, >>=-eq-ok, Tx-eq-ok, ok_value, require->>-eq-ok, transaction-eq-ok,
}
use roster_ai.Repository.Rows.{run_row, get_run_state, load_snapshot}
use roster_ai.Repository.Transitions.{finalize_run}
use roster_ai.Lifecycle.Calls.{Call, performs}
use roster_ai.UseCases.Sessions.{session, elsewhere}
use roster_ai.UseCases.Finalize.{judge, finalize_schedule_run, FinalizedScheduleRun}
use roster_ai.UseCases.Worker.{
  Solved, Interleaving, Next, solve, finished, end_run, finish_job, transaction_a,
  execute_schedule_run, solve_or_stop, transaction_b, go_on, execute_leased, solver_outcome,
}
use roster_ai.UseCases.Commits.{IsReached, IsReached-refl, IsReached-performs}
use roster_ai.UseCases.WorkerCalls.{end-Commits, transaction_a-Commits}
use roster_ai.UseCases.StepCalls.{finalization-Commits, judge-Commits}
use roster_ai.Store.Tx.{raised_is_no_value}
use roster_ai.UseCases.Settled.{
  IsSound, IsReached-IsSound, HasEnded, finalize_run-HasEnded, read-HasEnded,
}

-- A session that returned ran its block after the others' calls.
pub session_ran :
    {A : Type 0} (others : List Call) (block : World → Tx A) (w : World) {a : A} {w' : World}
    → session others block w ≡ (ok a, w')
    → block w (performs others w) ≡ (ok a, w')
unfolding session
session_ran others block w h = transaction-eq-ok (block w) (performs others w) h

module _ (candidate_metrics : SolverOutcome → RunSnapshot → Result (List ConstraintResult))
    (scheduler : RunSnapshot → Solved) (lease : JobLease) where
  finalized_settles :
      (snapshot : RunSnapshot) (lease_seconds : ℕ) (v : World) {f : FinalizedScheduleRun}
      {w' : World}
      → snapshot.schedule_run_id ≡ lease.schedule_run_id
      → IsSound v
      → execute_schedule_run candidate_metrics scheduler lease snapshot lease_seconds v ≡ (ok f, w')
      → HasEnded lease.schedule_run_id f.status w' × IsReached v w'
  unfolding execute_schedule_run finalize_schedule_run
  finalized_settles snapshot lease_seconds v {f} {w'} own s h =
      let outcome = solver_outcome (scheduler snapshot) in
      let checked = require->>-eq-ok (ltb 0 lease_seconds) value_error _ v h in
      let m = judge candidate_metrics snapshot outcome in
      let first = >>=-eq-ok m _ v checked.1 in
      let judged = first.0 in
      let v1 = (m v).1 in
      let s1 =
        IsReached-IsSound
          (judge-Commits candidate_metrics snapshot outcome v judged v1 (Tx-eq-ok first.1 refl))
          s in
      let write =
        finalize_run snapshot.schedule_run_id lease.site_id lease.fencing_epoch judged.status
          judged.reason judged.candidate (some v1.clock) lease.attempt_id in
      let second = >>=-eq-ok write _ v1 first.2 in
      let ended =
        finalize_run-HasEnded snapshot.schedule_run_id lease.site_id lease.fencing_epoch
          judged.status judged.reason judged.candidate (some v1.clock) lease.attempt_id v1 s1
          (Tx-eq-ok second.1 refl) in
      let value : judged ≡ f = ok_value second.2 in
      let last : (write v1).1 ≡ w' =
        ap (λ (p : Result FinalizedScheduleRun × World). p.1) second.2 in
      (
        subst (λ run. HasEnded run f.status w') own
            (subst (λ (g : FinalizedScheduleRun). HasEnded snapshot.schedule_run_id g.status w')
              value (subst (HasEnded snapshot.schedule_run_id judged.status) last ended)),
        finalization-Commits candidate_metrics snapshot outcome lease.site_id lease.fencing_epoch
            lease.attempt_id v f w' checked.1,
      )

  -- What transaction B has before it completes the job.
  module _ (snapshot : RunSnapshot) (lease_seconds : ℕ) (before v : World)
      (own : snapshot.schedule_run_id ≡ lease.schedule_run_id) (r : ScheduleRun)
      (reached : IsReached before v) (sound : IsSound v)
      (found : run_row lease.schedule_run_id lease.site_id before ≡ some r)
      (started : status_eq r.status solver_queued ≡ false) where
    terminal_stop :
        (status : RunStatus) {result : RunStatus} {w' : World}
        → r.status ≡ status
        → is_terminal status ≡ true
        → pure status v ≡ (ok result, w')
        → HasEnded lease.schedule_run_id result w' × IsReached v w'
    terminal_stop status {result} {w'} at terminal h =
        let ended =
          subst (λ t. HasEnded lease.schedule_run_id t v) at
            (read-HasEnded lease.schedule_run_id lease.site_id reached sound found
              (ap is_terminal at ∙ terminal)) in
        let value : status ≡ result = ok_value h in
        let last : v ≡ w' = ap (λ (p : Result RunStatus × World). p.1) h in
        (
          subst (λ t. HasEnded lease.schedule_run_id t w') value
              (subst (HasEnded lease.schedule_run_id status) last ended),
          subst (IsReached v) last (IsReached-refl v),
        )

    stop_by_status :
        (status : RunStatus) {result : RunStatus} {w' : World}
        → r.status ≡ status
        → solve_or_stop candidate_metrics scheduler lease snapshot lease_seconds
            (some (record { status = status; resource_version = r.resource_version }))
            v
          ≡ (ok result, w')
        → HasEnded lease.schedule_run_id result w' × IsReached v w'
    unfolding is_terminal
    stop_by_status solver_queued at h = cc (started, ap (λ t. status_eq t solver_queued) at)
    stop_by_status solver_running {result} {w'} at h =
        let m = execute_schedule_run candidate_metrics scheduler lease snapshot lease_seconds in
        let first = >>=-eq-ok m _ v h in
        let done = finalized_settles snapshot lease_seconds v own sound (Tx-eq-ok first.1 refl) in
        let value : first.0.status ≡ result = ok_value first.2 in
        let last : (m v).1 ≡ w' = ap (λ (p : Result RunStatus × World). p.1) first.2 in
        (
          subst (λ t. HasEnded lease.schedule_run_id t w') value
              (subst (HasEnded lease.schedule_run_id first.0.status) last done.0),
          subst (IsReached v) last done.1,
        )
    stop_by_status cancellation_requested {result} {w'} at h =
        let m = end_run candidate_metrics scheduler lease solver_cancelled "cancelled" in
        let first = >>=-eq-ok m _ v h in
        let done = Tx-eq-ok first.1 refl in
        let ended =
          finalize_run-HasEnded lease.schedule_run_id lease.site_id lease.fencing_epoch
            solver_cancelled (some "cancelled") none none lease.attempt_id v sound done in
        let value : solver_cancelled ≡ result = ok_value first.2 in
        let last : (m v).1 ≡ w' = ap (λ (p : Result RunStatus × World). p.1) first.2 in
        (
          subst (λ t. HasEnded lease.schedule_run_id t w') value
              (subst (HasEnded lease.schedule_run_id solver_cancelled) last ended),
          subst (IsReached v) last (
              end-Commits candidate_metrics scheduler lease solver_cancelled "cancelled" v tt
                (m v).1 done),
        )
    stop_by_status solver_completed at h = terminal_stop solver_completed at refl h
    stop_by_status status at h = terminal_stop status at refl h

  state_settles :
      (snapshot : RunSnapshot) (lease_seconds : ℕ) (before v : World) (o : Option ScheduleRun)
      {status : RunStatus} {w' : World}
      → snapshot.schedule_run_id ≡ lease.schedule_run_id
      → IsReached before v
      → IsSound v
      → run_row lease.schedule_run_id lease.site_id before ≡ o
      → IsStarted lease.schedule_run_id lease.site_id before
      → solve_or_stop candidate_metrics scheduler lease snapshot lease_seconds
          (Option.map (λ r. record { status = r.status; resource_version = r.resource_version }) o)
          v
        ≡ (ok status, w')
      → HasEnded lease.schedule_run_id status w' × IsReached v w'
  state_settles snapshot lease_seconds before v none own p s found b h =
      absurd (raised_is_no_value h)
  state_settles snapshot lease_seconds before v (some r) own p s found b h =
      let same : b.row ≡ r = cc (b.found, found) in
      stop_by_status snapshot lease_seconds before v own r p s found
        (ap (λ (x : ScheduleRun). status_eq x.status solver_queued) (sym same) ∙ b.started) r.status
        refl h

  transaction_b_settles :
      (snapshot : RunSnapshot) (lease_seconds : ℕ) (before v : World) {status : RunStatus}
      {w' : World}
      → snapshot.schedule_run_id ≡ lease.schedule_run_id
      → IsReached before v
      → IsSound v
      → IsStarted lease.schedule_run_id lease.site_id before
      → transaction_b candidate_metrics scheduler lease snapshot lease_seconds before v
        ≡ (ok status, w')
      → HasSettled lease.job_id lease.schedule_run_id status w'
  unfolding transaction_b get_run_state
  transaction_b_settles snapshot lease_seconds before v {status} {w'} own p s b h =
      let m = solve_or_stop candidate_metrics scheduler lease snapshot lease_seconds (
        Option.map (λ r. record { status = r.status; resource_version = r.resource_version })
          (run_row lease.schedule_run_id lease.site_id before)) in
      let first = >>=-eq-ok m _ v h in
      let v1 = (m v).1 in
      let ended =
        state_settles snapshot lease_seconds before v
          (run_row lease.schedule_run_id lease.site_id before) own p s refl b
          (Tx-eq-ok first.1 refl) in
      let second = >>=-eq-ok (finish_job candidate_metrics scheduler lease) _ v1 first.2 in
      let settled =
        finish_settles candidate_metrics scheduler lease first.0 v1 (IsReached-IsSound ended.1 s)
          ended.0 (Tx-eq-ok second.1 refl) in
      let value : first.0 ≡ status = ok_value second.2 in
      let last = ap (λ (p : Result RunStatus × World). p.1) second.2 in
      subst (λ t. HasSettled lease.job_id lease.schedule_run_id t w') value
        (subst (HasSettled lease.job_id lease.schedule_run_id first.0) last settled)

  go_on_settles :
      (others : Interleaving) (lease_seconds : ℕ) (next : Next) (w : World) {status : RunStatus}
      {w' : World}
      → IsSound w
      → AfterA candidate_metrics scheduler lease next w
      → go_on candidate_metrics scheduler lease others lease_seconds next w ≡ (ok status, w')
      → HasSettled lease.job_id lease.schedule_run_id status w'
  unfolding elsewhere
  go_on_settles others lease_seconds (finished result) w {status} {w'} s a h =
      let value : result ≡ status = ok_value h in
      let last : w ≡ w' = ap (λ (p : Result RunStatus × World). p.1) h in
      subst (λ t. HasSettled lease.job_id lease.schedule_run_id t w') value
        (subst (HasSettled lease.job_id lease.schedule_run_id result) last a)
  go_on_settles others lease_seconds (solve snapshot) w s a h =
      let v = performs others.before_b w in
      let b = transaction_b candidate_metrics scheduler lease snapshot lease_seconds in
      let since = IsReached-performs others.before_b w in
      let aside = IsReached-performs others.in_b v in
      let sv = IsReached-IsSound since s in
      transaction_b_settles snapshot lease_seconds v (performs others.in_b v) a.1 aside
        (IsReached-IsSound aside sv)
        (IsStarted-later lease.schedule_run_id lease.site_id since a.0.found a.0.started)
        (session_ran others.in_b b v h)

  pub execute_leased_settles :
      (others : Interleaving) (lease_seconds : ℕ) (w : World) {status : RunStatus} {w' : World}
      → IsSound w
      → ((snapshot : RunSnapshot)
          → (load_snapshot lease.schedule_run_id lease.site_id (performs others.before_a w)).0
            ≡ ok (some snapshot)
          → snapshot.schedule_run_id ≡ lease.schedule_run_id)
      → execute_leased candidate_metrics scheduler lease others lease_seconds w ≡ (ok status, w')
      → HasSettled lease.job_id lease.schedule_run_id status w'
  unfolding execute_leased elsewhere
  execute_leased_settles others lease_seconds w s owns h =
      let v = performs others.before_a w in
      let block = transaction_a candidate_metrics scheduler lease others.in_second_round in
      let m = session others.in_a block in
      let first = >>=-eq-ok m _ v h in
      let sv = IsReached-IsSound (IsReached-performs others.before_a w) s in
      let aside = IsReached-performs others.in_a v in
      let ran = session_ran others.in_a block v (Tx-eq-ok first.1 refl) in
      let done =
        transaction_a-AfterA candidate_metrics scheduler lease others.in_second_round v
          (performs others.in_a v) owns aside (IsReached-IsSound aside sv) ran in
      let step =
        transaction_a-Commits candidate_metrics scheduler lease others.in_second_round v
          (performs others.in_a v) first.0 (m v).1 ran in
      go_on_settles others lease_seconds first.0 (m v).1
        (IsReached-IsSound step (IsReached-IsSound aside sv)) done first.2
