-- ===== src/UseCases/WorkerRecovery.antt =====
-- A worker's recovery from a fatal failure, and the outcome that it returns.
use roster_ai.UseCases.WorkerOutcomes.{session_ran, execute_leased_settles}
use roster_ai.UseCases.WorkerEnds.{HasSettled}
use roster_ai.Base.{
  ℕ, ◌≡◌, refl, ◌∙◌, ap, subst, Bool, true, false, Option, none, some, List, if◌then◌else◌,
}
use mathlib.Core.Option
use roster_ai.Contracts.RunStatus.{RunStatus, is_terminal}
use roster_ai.Contracts.JobLease.{JobLease}
use roster_ai.Contracts.Scheduling.{RunSnapshot, SolverOutcome, ConstraintResult}
use roster_ai.Store.{World, ScheduleRun, Fault}
use roster_ai.Store.Tx.{
  Tx, Result, ok, raised, pure, raise, ◌>>=◌, ◌>>◌, >>=-eq-ok, Tx-eq-ok, ok_value, resume,
}
use roster_ai.Repository.Rows.{run_row, get_run_state, load_snapshot}
use roster_ai.Repository.Jobs.{fail_job}
use roster_ai.Lifecycle.Calls.{performs}
use roster_ai.UseCases.Sessions.{read, session, elsewhere}
use roster_ai.UseCases.Worker.{
  Solved, Interleaving, end_run, execute_leased, failure_status, record_failure,
  record_fatal_failure, recover, work_on, is_fatal, LeaseOutcome, or_cause, outcome_of,
}
use roster_ai.UseCases.Commits.{IsReached, IsReached-performs}
use roster_ai.UseCases.WorkerCalls.{end-Commits, execute_leased-Leaves}
use roster_ai.Store.Tx.{raised_is_no_value}
use roster_ai.UseCases.Settled.{
  IsSound, IsReached-IsSound, HasEnded, HasEndedJob, finalize_run-HasEnded, read-HasEnded,
  fail_job-HasEndedJob, HasEnded-runs, fail_job-runs,
}

module _ (candidate_metrics : SolverOutcome → RunSnapshot → Result (List ConstraintResult))
    (scheduler : RunSnapshot → Solved) (lease : JobLease) where
  -- fail_job, after the run has ended, and the status that is returned.
  fail_settles :
      (status : RunStatus) (v : World) {result : RunStatus} {w' : World}
      → IsSound v
      → HasEnded lease.schedule_run_id status v
      → (fail_job lease.job_id lease.site_id lease.fencing_epoch >> pure status) v ≡ (ok result, w')
      → HasSettled lease.job_id lease.schedule_run_id result w'
  fail_settles status v {result} {w'} s ended h =
      let m = fail_job lease.job_id lease.site_id lease.fencing_epoch in
      let first = >>=-eq-ok m _ v h in
      let done = Tx-eq-ok first.1 refl in
      let value : status ≡ result = ok_value first.2 in
      let last : (m v).1 ≡ w' = ap (λ (p : Result RunStatus × World). p.1) first.2 in
      let settled : HasSettled lease.job_id lease.schedule_run_id status (m v).1 = record {
        run_ended =
            HasEnded-runs v (m v).1 (fail_job-runs lease.job_id lease.site_id lease.fencing_epoch v)
              ended;
        job_ended = fail_job-HasEndedJob lease.job_id lease.site_id lease.fencing_epoch v s done;
      } in
      subst (λ t. HasSettled lease.job_id lease.schedule_run_id t w') value
        (subst (HasSettled lease.job_id lease.schedule_run_id status) last settled)

  -- The two arms of the recovery, by whether the status that was read is terminal.
  recorded_settles :
      (before v : World) (r : ScheduleRun) (final : Bool) {result : RunStatus} {w' : World}
      → IsReached before v
      → IsSound v
      → run_row lease.schedule_run_id lease.site_id before ≡ some r
      → is_terminal r.status ≡ final
      → (if final
            then fail_job lease.job_id lease.site_id lease.fencing_epoch >> pure r.status
            else end_run candidate_metrics scheduler lease
                (failure_status candidate_metrics scheduler lease r.status).0
                (failure_status candidate_metrics scheduler lease r.status).1
              >> fail_job lease.job_id lease.site_id lease.fencing_epoch
              >> pure (failure_status candidate_metrics scheduler lease r.status).0)
          v
        ≡ (ok result, w')
      → HasSettled lease.job_id lease.schedule_run_id result w'
  recorded_settles before v r true p s found terminal h =
      fail_settles r.status v s
        (read-HasEnded lease.schedule_run_id lease.site_id p s found terminal) h
  recorded_settles before v r false {result} {w'} p s found open_run h =
      let f = failure_status candidate_metrics scheduler lease r.status in
      let m = end_run candidate_metrics scheduler lease f.0 f.1 in
      let fail = fail_job lease.job_id lease.site_id lease.fencing_epoch in
      let both = >>=-eq-ok (m >> fail) _ v h in
      let first = >>=-eq-ok m _ v (Tx-eq-ok both.1 refl) in
      let done = Tx-eq-ok first.1 refl in
      let ended =
        finalize_run-HasEnded lease.schedule_run_id lease.site_id lease.fencing_epoch f.0 (some f.1)
          none none lease.attempt_id v s done in
      let s1 =
        IsReached-IsSound (end-Commits candidate_metrics scheduler lease f.0 f.1 v tt (m v).1 done)
          s in
      fail_settles f.0 (m v).1 s1 ended
        (ap (λ (q : Result Unit × World). resume q.0 (λ _. pure f.0) q.1) first.2 ∙ both.2)

  failure_settles :
      (cause : Fault) (before v : World) (o : Option ScheduleRun) {result : RunStatus} {w' : World}
      → IsReached before v
      → IsSound v
      → run_row lease.schedule_run_id lease.site_id before ≡ o
      → record_failure candidate_metrics scheduler lease cause
          (Option.map (λ r. record { status = r.status; resource_version = r.resource_version }) o)
          v
        ≡ (ok result, w')
      → HasSettled lease.job_id lease.schedule_run_id result w'
  failure_settles cause before v none p s found h = absurd (raised_is_no_value h)
  failure_settles cause before v (some r) p s found h =
      recorded_settles before v r (is_terminal r.status) p s found refl h

  caused :
      (cause : Fault) (r : Result RunStatus) (v : World) {result : RunStatus} {w' : World}
      → or_cause candidate_metrics scheduler lease cause r v ≡ (ok result, w')
      → ◌≡◌ {A = Result RunStatus × World} (r, v) (ok result, w')
  caused cause (ok a) v h = h
  caused cause (raised e) v h = absurd (raised_is_no_value h)

  fatal_settles :
      (others : Interleaving) (cause : Fault) (w : World) {result : RunStatus} {w' : World}
      → IsSound w
      → record_fatal_failure candidate_metrics scheduler lease others cause w ≡ (ok result, w')
      → HasSettled lease.job_id lease.schedule_run_id result w'
  unfolding record_fatal_failure get_run_state
  fatal_settles others cause w s h =
      let block : World → Tx RunStatus = λ before.
        read before (get_run_state lease.schedule_run_id lease.site_id)
        >>= record_failure candidate_metrics scheduler lease cause in
      let done = session others.in_recovery block w in
      let aside = IsReached-performs others.in_recovery w in
      let ran = session_ran others.in_recovery block w (caused cause done.0 done.1 h) in
      failure_settles cause w (performs others.in_recovery w)
        (run_row lease.schedule_run_id lease.site_id w) aside (IsReached-IsSound aside s) refl ran

  recover_settles :
      (others : Interleaving) (r : Result RunStatus) (w : World) {result : RunStatus} {w' : World}
      → IsSound w
      → ((status : RunStatus)
          → r ≡ ok status
          → HasSettled lease.job_id lease.schedule_run_id status w)
      → recover candidate_metrics scheduler lease others r w ≡ (ok result, w')
      → HasSettled lease.job_id lease.schedule_run_id result w'
  unfolding elsewhere
  recover_settles others (ok status) w {result} {w'} s k h =
      let value : status ≡ result = ok_value h in
      let last : w ≡ w' = ap (λ (p : Result RunStatus × World). p.1) h in
      subst (λ t. HasSettled lease.job_id lease.schedule_run_id t w') value
        (subst (HasSettled lease.job_id lease.schedule_run_id status) last (k status refl))
  recover_settles others (raised e) w {result} {w'} s k h = by_class (is_fatal e) h
    where
      by_class :
          (fatal : Bool)
          → (if fatal
                then elsewhere others.before_recovery
                  >> record_fatal_failure candidate_metrics scheduler lease others e
                else raise e)
              w
            ≡ (ok result, w')
          → HasSettled lease.job_id lease.schedule_run_id result w'
      by_class true g =
          let since = IsReached-performs others.before_recovery w in
          fatal_settles others e (performs others.before_recovery w) (IsReached-IsSound since s) g
      by_class false g = absurd (raised_is_no_value g)

-- The outcome is the run's and the job's: both have ended, the run with the outcome's status.
pub record IsOutcome (o : LeaseOutcome) (w : World) : Type 0 where
  pub run : HasEnded o.schedule_run_id o.status w
  pub job : HasEndedJob o.job_id w

-- When a worker with a lease returns an outcome, the job has ended and the run has ended with the
-- outcome's status, which is terminal, whatever the solver did and whatever other sessions
-- committed around its transactions; it starts from a store with consistent streams and unique
-- jobs, where the snapshot of the run, if there is one, names the run.
pub work_on-IsOutcome :
    (candidate_metrics : SolverOutcome → RunSnapshot → Result (List ConstraintResult))
    (scheduler : RunSnapshot → Solved) (others : Interleaving) (lease_seconds : ℕ)
    (lease : JobLease) (w : World) {o : LeaseOutcome} {w' : World}
    → IsSound w
    → ((snapshot : RunSnapshot)
        → (load_snapshot lease.schedule_run_id lease.site_id (performs others.before_a w)).0
          ≡ ok (some snapshot)
        → snapshot.schedule_run_id ≡ lease.schedule_run_id)
    → work_on candidate_metrics scheduler others lease_seconds (some lease) w ≡ (ok (some o), w')
    → IsOutcome o w'
work_on-IsOutcome candidate_metrics scheduler others lease_seconds lease w {o} {w'} s owns h =
    let m = execute_leased candidate_metrics scheduler lease others lease_seconds in
    let done = m w in
    let first = >>=-eq-ok (recover candidate_metrics scheduler lease others done.0) _ done.1 h in
    let step = execute_leased-Leaves candidate_metrics scheduler lease others lease_seconds w in
    let settled =
      recover_settles candidate_metrics scheduler lease others done.0 done.1
        (IsReached-IsSound step s)
        (λ status e.
          execute_leased_settles candidate_metrics scheduler lease others lease_seconds w s owns
            (Tx-eq-ok e refl))
        (Tx-eq-ok first.1 refl) in
    let told : some (outcome_of lease first.0) ≡ some o = ok_value first.2 in
    let value : outcome_of lease first.0 ≡ o = cc told in
    let last = ap (λ (p : Result (Option LeaseOutcome) × World). p.1) first.2 in
    let whole : IsOutcome (outcome_of lease first.0) w' =
      subst (IsOutcome (outcome_of lease first.0)) last
        (record { run = settled.run_ended; job = settled.job_ended }) in
    subst (λ x. IsOutcome x w') value whole
