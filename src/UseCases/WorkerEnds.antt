-- ===== src/UseCases/WorkerEnds.antt =====
-- A worker that returns an outcome has ended the run and the job.
use roster_ai.Base.{String, ◌≡◌, refl, sym, ◌∙◌, ap, subst, true, false, Option, none, some, List}
use mathlib.Core.Option
use roster_ai.Contracts.RunStatus.{
  RunStatus, status_eq, is_terminal, solver_queued, solver_running, solver_completed,
  solver_cancelled, cancellation_requested,
}
use roster_ai.Contracts.JobLease.{Uuid, Instant, JobLease}
use roster_ai.Contracts.Scheduling.{RunSnapshot, SolverOutcome, ConstraintResult}
use roster_ai.Store.{World, ScheduleRun, run_transition_conflict}
use roster_ai.Store.Tx.{Tx, Result, ok, raised, pure, raise, ◌>>◌, >>=-eq-ok, Tx-eq-ok, ok_value}
use roster_ai.Repository.Rows.{run_row, row_of, get_run_state, load_snapshot}
use roster_ai.Repository.Transitions.{mark_running}
use roster_ai.Lifecycle.Edges.{
  ◌⟶◌, ◌⟶*◌, here, more, start, cancel_queued, queue_times_out, queue_fails, ask_cancel,
  end_running, end_asked, cancel_asked, EndsSolve, completes, infeasible, times_out, fails,
}
use roster_ai.Lifecycle.Fenced.{mark_running-IsFencedMove, IsFencedMove-row}
use roster_ai.UseCases.Worker.{
  Solved, Next, solve, finished, end_run, finish_job, unless_conflict, attempt_round, second_round,
  with_snapshot, transaction_a,
}
use roster_ai.UseCases.Commits.{IsReached-performs, IsReached, IsReached-trans}
use roster_ai.UseCases.WorkerCalls.{end-Commits}
use roster_ai.UseCases.Sessions.{elsewhere}
use roster_ai.Lifecycle.Calls.{Call, performs}
use roster_ai.UseCases.StepCalls.{mark-Commits, conflict_reaches}
use roster_ai.Store.Tx.{raised_is_no_value}
use roster_ai.UseCases.Settled.{
  IsSound, IsReached-IsSound, IsReached-Later, HasEnded, HasEndedJob, row_of-run_row,
  finalize_run-HasEnded, read-HasEnded, complete_job-HasEndedJob, HasEnded-runs, complete_job-runs,
}

-- The run has left the queue.
pub record IsStarted (run site : Uuid) (w : World) : Type 0 where
  pub row : ScheduleRun
  pub found : run_row run site w ≡ some row
  pub started : status_eq row.status solver_queued ≡ false

ended_is_started : {t : RunStatus} → EndsSolve t → status_eq t solver_queued ≡ false
ended_is_started completes = refl
ended_is_started infeasible = refl
ended_is_started times_out = refl
ended_is_started fails = refl

⟶-started : {s t : RunStatus} → s ⟶ t → status_eq t solver_queued ≡ false
⟶-started start = refl
⟶-started cancel_queued = refl
⟶-started queue_times_out = refl
⟶-started queue_fails = refl
⟶-started ask_cancel = refl
⟶-started (end_running e) = ended_is_started e
⟶-started (end_asked e) = ended_is_started e
⟶-started cancel_asked = refl

⟶*-started :
    {s t : RunStatus}
    → s ⟶* t
    → status_eq s solver_queued ≡ false
    → status_eq t solver_queued ≡ false
⟶*-started here h = h
⟶*-started (more e p) h = ⟶*-started p (⟶-started e)

pub IsStarted-later :
    (run site : Uuid) {v w : World} {r : ScheduleRun}
    → IsReached v w
    → run_row run site v ≡ some r
    → status_eq r.status solver_queued ≡ false
    → IsStarted run site w
IsStarted-later run site p found h =
    let later = IsReached-Later run site p found in
    record { row = later.row; found = later.found; started = ⟶*-started later.evolves.path h }

-- A run that was read before, and is running now.
IsStarted-running :
    (run site : Uuid) {v w : World} {r x : ScheduleRun}
    → IsReached v w
    → IsSound w
    → run_row run site v ≡ some r
    → row_of run w ≡ some x
    → x.status ≡ solver_running
    → IsStarted run site w
IsStarted-running run site {v} {w} {r} {x} p s found now running =
    let later = IsReached-Later run site p found in
    let own = row_of-run_row run site w s later.found in
    let same : later.row ≡ x = cc (own, now) in
    record {
      row = later.row;
      found = later.found;
      started = ap (λ (y : ScheduleRun). status_eq y.status solver_queued) same ∙ rw running refl;
    }

-- The run and the job have ended.
pub record HasSettled (job run : Uuid) (status : RunStatus) (w : World) : Type 0 where
  pub run_ended : HasEnded run status w
  pub job_ended : HasEndedJob job w

module _ (candidate_metrics : SolverOutcome → RunSnapshot → Result (List ConstraintResult))
    (scheduler : RunSnapshot → Solved) (lease : JobLease) where
  abbrev pub AfterA : Next → World → Type 0
  AfterA (finished status) w = HasSettled lease.job_id lease.schedule_run_id status w
  AfterA (solve snapshot) w =
      IsStarted lease.schedule_run_id lease.site_id w
      × (snapshot.schedule_run_id ≡ lease.schedule_run_id)

  pub finish_settles :
      (status : RunStatus) (v : World) {w' : World}
      → IsSound v
      → HasEnded lease.schedule_run_id status v
      → finish_job candidate_metrics scheduler lease v ≡ (ok tt, w')
      → HasSettled lease.job_id lease.schedule_run_id status w'
  finish_settles status v {w'} s ended h = record {
    run_ended =
        HasEnded-runs v w'
          (sym (ap (λ (p : Result Unit × World). p.1.schedule_run) h)
            ∙ complete_job-runs lease.job_id lease.site_id lease.fencing_epoch v)
          ended;
    job_ended = complete_job-HasEndedJob lease.job_id lease.site_id lease.fencing_epoch v s h;
  }

  -- finalize_run, then complete_job, in one transaction.
  end_settles :
      (status : RunStatus) (reason : String) (v : World) {w' : World}
      → IsSound v
      → (end_run candidate_metrics scheduler lease status reason
            >> finish_job candidate_metrics scheduler lease)
          v
        ≡ (ok tt, w')
      → HasSettled lease.job_id lease.schedule_run_id status w'
  end_settles status reason v {w'} s h =
      let m = end_run candidate_metrics scheduler lease status reason in
      let first = >>=-eq-ok m _ v h in
      let done = Tx-eq-ok first.1 refl in
      finish_settles status (m v).1
        (IsReached-IsSound
          (end-Commits candidate_metrics scheduler lease status reason v tt (m v).1 done) s)
        (finalize_run-HasEnded lease.schedule_run_id lease.site_id lease.fencing_epoch status
          (some reason) none none lease.attempt_id v s done)
        first.2

  settles_pure :
      (status : RunStatus) (m : Tx (Unit {0})) (v : World) {next : Next} {w' : World}
      → ((u : World) → m v ≡ (ok tt, u) → HasSettled lease.job_id lease.schedule_run_id status u)
      → (m >> pure (finished status)) v ≡ (ok next, w')
      → AfterA next w'
  settles_pure status m v {next} {w'} k h =
      let first = >>=-eq-ok m _ v h in
      let settled = k (m v).1 (Tx-eq-ok first.1 refl) in
      let value : finished status ≡ next = ok_value first.2 in
      let last : (m v).1 ≡ w' = ap (λ (p : Result Next × World). p.1) first.2 in
      subst (λ n. AfterA n w') value
        (subst (HasSettled lease.job_id lease.schedule_run_id status) last settled)

  module _ (snapshot : RunSnapshot) (own : snapshot.schedule_run_id ≡ lease.schedule_run_id)
      (on_conflict : Tx Next) (before v : World) (r : ScheduleRun) (reached : IsReached before v)
      (sound : IsSound v) (found : run_row lease.schedule_run_id lease.site_id before ≡ some r)
      (retried : (u : World) (n : Next) (w' : World)
        → IsSound u
        → on_conflict u ≡ (ok n, w')
        → AfterA n w') where
    marked_AfterA :
        (m : Result Instant) (u : World) {next : Next} {w' : World}
        → mark_running lease.schedule_run_id lease.site_id lease.fencing_epoch lease.attempt_id v
          ≡ (m, u)
        → unless_conflict candidate_metrics scheduler lease snapshot on_conflict m u ≡ (ok next, w')
        → AfterA next w'
    marked_AfterA (ok t) u {next} {w'} e h =
        let step =
          mark-Commits lease.schedule_run_id lease.site_id lease.fencing_epoch lease.attempt_id v t
            u e in
        let moved =
          IsFencedMove-row lease.schedule_run_id lease.site_id solver_running
            sound.consistent.unique
            (mark_running-IsFencedMove lease.schedule_run_id lease.site_id lease.fencing_epoch
              lease.attempt_id v e) in
        let now =
          IsStarted-running lease.schedule_run_id lease.site_id
            (IsReached-trans before v u reached step) (IsReached-IsSound step sound) found moved.1
            moved.2 in
        let value : solve snapshot ≡ next = ok_value h in
        let last : u ≡ w' = ap (λ (p : Result Next × World). p.1) h in
        subst (λ n. AfterA n w') value
          (subst (IsStarted lease.schedule_run_id lease.site_id) last now, own)
    marked_AfterA (raised run_transition_conflict) u {next} {w'} e h =
        let step = subst (IsReached v) (ap (λ (p : Result Instant × World). p.1) e) (
          conflict_reaches lease.schedule_run_id lease.site_id lease.fencing_epoch lease.attempt_id
            v (ap (λ (p : Result Instant × World). p.0) e)) in
        retried u next w' (IsReached-IsSound step sound) h
    marked_AfterA (raised other) u e h = absurd (raised_is_no_value h)

    terminal_round :
        (status : RunStatus) {next : Next} {w' : World}
        → r.status ≡ status
        → is_terminal status ≡ true
        → (finish_job candidate_metrics scheduler lease >> pure (finished status)) v ≡ (ok next, w')
        → AfterA next w'
    terminal_round status at terminal h =
        let ended =
          subst (λ t. HasEnded lease.schedule_run_id t v) at
            (read-HasEnded lease.schedule_run_id lease.site_id reached sound found
              (ap is_terminal at ∙ terminal)) in
        settles_pure status (finish_job candidate_metrics scheduler lease) v
          (λ u e. finish_settles status v sound ended e) h

    round_by_status :
        (status : RunStatus) {next : Next} {w' : World}
        → r.status ≡ status
        → attempt_round candidate_metrics scheduler lease snapshot on_conflict
            (some (record { status = status; resource_version = r.resource_version }))
            v
          ≡ (ok next, w')
        → AfterA next w'
    unfolding is_terminal
    round_by_status solver_queued at h =
        let m =
          mark_running lease.schedule_run_id lease.site_id lease.fencing_epoch lease.attempt_id v in
        marked_AfterA m.0 m.1 refl h
    round_by_status solver_running {next} {w'} at h =
        let now = IsStarted-later lease.schedule_run_id lease.site_id reached found (rw at refl) in
        let value : solve snapshot ≡ next = ok_value h in
        let last : v ≡ w' = ap (λ (p : Result Next × World). p.1) h in
        subst (λ n. AfterA n w') value
          (subst (IsStarted lease.schedule_run_id lease.site_id) last now, own)
    round_by_status cancellation_requested at h =
        settles_pure solver_cancelled
          (end_run candidate_metrics scheduler lease solver_cancelled "cancelled"
            >> finish_job candidate_metrics scheduler lease)
          v (λ u e. end_settles solver_cancelled "cancelled" v sound e) h
    round_by_status solver_completed at h = terminal_round solver_completed at refl h
    round_by_status status at h = terminal_round status at refl h

  state_AfterA :
      (snapshot : RunSnapshot) (own : snapshot.schedule_run_id ≡ lease.schedule_run_id)
      (on_conflict : Tx Next) (before v : World) (o : Option ScheduleRun) {next : Next} {w' : World}
      → IsReached before v
      → IsSound v
      → run_row lease.schedule_run_id lease.site_id before ≡ o
      → ((u : World) (n : Next) (w'' : World)
          → IsSound u
          → on_conflict u ≡ (ok n, w'')
          → AfterA n w'')
      → attempt_round candidate_metrics scheduler lease snapshot on_conflict
          (Option.map (λ r. record { status = r.status; resource_version = r.resource_version }) o)
          v
        ≡ (ok next, w')
      → AfterA next w'
  state_AfterA snapshot own on_conflict before v none p s found k h = absurd (raised_is_no_value h)
  state_AfterA snapshot own on_conflict before v (some r) p s found k h =
      round_by_status snapshot own on_conflict before v r p s found k r.status refl h

  second_AfterA :
      (between : List Call) (snapshot : RunSnapshot)
      (own : snapshot.schedule_run_id ≡ lease.schedule_run_id) (u : World) (next : Next)
      (w' : World)
      → IsSound u
      → second_round candidate_metrics scheduler lease between snapshot u ≡ (ok next, w')
      → AfterA next w'
  unfolding get_run_state elsewhere
  second_AfterA between snapshot own u next w' s h =
      let aside = IsReached-performs between u in
      state_AfterA snapshot own (raise run_transition_conflict) u (performs between u)
        (run_row lease.schedule_run_id lease.site_id u) aside (IsReached-IsSound aside s) refl
        (λ x n y t e. absurd (raised_is_no_value e)) h

  snapshot_AfterA :
      (between : List Call) (before v : World) (o : Option RunSnapshot) {next : Next} {w' : World}
      → ((snapshot : RunSnapshot)
          → o ≡ some snapshot
          → snapshot.schedule_run_id ≡ lease.schedule_run_id)
      → IsReached before v
      → IsSound v
      → with_snapshot candidate_metrics scheduler lease between before o v ≡ (ok next, w')
      → AfterA next w'
  unfolding get_run_state
  snapshot_AfterA between before v none owns p s h = absurd (raised_is_no_value h)
  snapshot_AfterA between before v (some snapshot) owns p s h =
      let own = owns snapshot refl in
      state_AfterA snapshot own (second_round candidate_metrics scheduler lease between snapshot)
        before v (run_row lease.schedule_run_id lease.site_id before) p s refl
        (second_AfterA between snapshot own) h

  pub transaction_a-AfterA :
      (between : List Call) (before v : World) {next : Next} {w' : World}
      → ((snapshot : RunSnapshot)
          → (load_snapshot lease.schedule_run_id lease.site_id before).0 ≡ ok (some snapshot)
          → snapshot.schedule_run_id ≡ lease.schedule_run_id)
      → IsReached before v
      → IsSound v
      → transaction_a candidate_metrics scheduler lease between before v ≡ (ok next, w')
      → AfterA next w'
  unfolding transaction_a load_snapshot
  transaction_a-AfterA between before v owns p s h =
      snapshot_AfterA between before v _ (λ snapshot e. owns snapshot (ap (λ o. ok o) e)) p s h
