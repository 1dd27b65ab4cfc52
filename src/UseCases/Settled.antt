-- ===== src/UseCases/Settled.antt =====
-- Runs and jobs that have ended, and the repository methods that end them.
use roster_ai.Base.{
  ℕ, String, ◌≡◌, refl, ◌∙◌, ap, subst, true, Option, some, inl, inr, ◌⊎◌, Bool-cases, arith, ◌==◌,
  ==_iff, if◌then◌else◌,
}
use mathlib.Core.Option
use roster_ai.Base.Table.{select_one, select_one_holds, select_one-update, update, count}
use roster_ai.Base.Unique.{select_by_key}
use roster_ai.Contracts.RunStatus.{RunStatus, is_terminal}
use roster_ai.Contracts.JobLease.{Uuid, Instant, JobLease, JobStatus, completed, failed}
use roster_ai.Contracts.Scheduling.{Candidate}
use roster_ai.Store.{World, ScheduleRun}
use roster_ai.Store.Tx.{ok}
use roster_ai.Repository.Rows.{is_run, run_row, row_of}
use roster_ai.Repository.Transitions.{finalize_run}
use roster_ai.Repository.Jobs.{complete_job, fail_job, end_job, holds_lease}
use roster_ai.Lifecycle.JobMoves.{HasUniqueJobs}
use roster_ai.Lifecycle.JobCalls.{performs-HasUniqueJobs}
use roster_ai.Lifecycle.Consistency.{IsConsistent, performs-IsConsistent}
use roster_ai.Lifecycle.History.{Later, performs-Later}
use roster_ai.Lifecycle.Fenced.{finalize_run-IsFencedMove, IsFencedMove-row}
use roster_ai.Lifecycle.Ends.{found_of_count}
use roster_ai.UseCases.Commits.{IsReached}

-- The invariants of the committed calls.
pub record IsSound (w : World) : Type 0 where
  pub consistent : IsConsistent w
  pub jobs : HasUniqueJobs w.job_queue

pub IsReached-IsSound : {v w : World} → IsReached v w → IsSound v → IsSound w
IsReached-IsSound {v} p s = subst IsSound p.path (record {
  consistent = performs-IsConsistent p.calls v s.consistent;
  jobs = performs-HasUniqueJobs p.calls v s.jobs;
})

pub IsReached-Later :
    (run site : Uuid) {v w : World} {r : ScheduleRun}
    → IsReached v w
    → run_row run site v ≡ some r
    → Later run site r w
IsReached-Later run site {v} {w} {r} p found =
    subst (Later run site r) p.path (performs-Later p.calls run site v found)

-- The run has ended with `status`.
pub record HasEnded (run : Uuid) (status : RunStatus) (w : World) : Type 0 where
  pub row : ScheduleRun
  pub found : row_of run w ≡ some row
  pub agrees : row.status ≡ status
  pub terminal : is_terminal status ≡ true

-- The job has ended, one way or the other.
pub record HasEndedJob (job : Uuid) (w : World) : Type 0 where
  pub row : JobLease
  pub found : select_one (λ j. j.job_id == job) w.job_queue ≡ some row
  pub ended : (row.status ≡ completed) ⊎ (row.status ≡ failed)

pub row_of-run_row :
    (run site : Uuid) (w : World) {r : ScheduleRun}
    → IsSound w
    → run_row run site w ≡ some r
    → row_of run w ≡ some r
row_of-run_row run site w s found =
    select_by_key (λ r. r.id) run (is_run run site) w.schedule_run s.consistent.unique
      (λ x t. ground arith) found

pub finalize_run-HasEnded :
    (run site : Uuid) (epoch : ℕ) (status : RunStatus) (reason : Option String)
    (c : Option Candidate) (finished : Option Instant) (request : Option Uuid) (w : World)
    {w' : World}
    → IsSound w
    → finalize_run run site epoch status reason c finished request w ≡ (ok tt, w')
    → HasEnded run status w'
finalize_run-HasEnded run site epoch status reason c finished request w s h =
    let done = finalize_run-IsFencedMove run site epoch status reason c finished request w h in
    let after = IsFencedMove-row run site status s.consistent.unique done.1 in
    record { row = after.0; found = after.1; agrees = after.2; terminal = done.0 }

-- A terminal status that was read stands, whatever was committed since.
pub read-HasEnded :
    (run site : Uuid) {v w : World} {r : ScheduleRun}
    → IsReached v w
    → IsSound w
    → run_row run site v ≡ some r
    → is_terminal r.status ≡ true
    → HasEnded run r.status w
read-HasEnded run site {v} {w} {r} p s found terminal =
    let later = IsReached-Later run site p found in
    let same : later.row ≡ r = elim later.evolves.frozen [
      | inl unfinished ↦ cc (terminal, unfinished)
      | inr e ↦ e
    ] in
    record {
      row = later.row;
      found = row_of-run_row run site w s later.found;
      agrees = ap (λ (x : ScheduleRun). x.status) same;
      terminal = terminal;
    }

end_job-HasEndedJob :
    (status : JobStatus) (job site : Uuid) (epoch : ℕ) (w : World) {w' : World}
    → (status ≡ completed) ⊎ (status ≡ failed)
    → IsSound w
    → end_job status job site epoch w ≡ (ok tt, w')
    → HasEndedJob job w'
unfolding end_job
end_job-HasEndedJob status job site epoch w {w'} ended s h =
    let p = holds_lease job site epoch in
    let f : JobLease → JobLease = λ j. record j { status = status; heartbeat_at = some w.now } in
    elim (Bool-cases (count p w.job_queue == 1)) [
      | inl one ↦
          let after : w'.job_queue ≡ update p f w.job_queue = ground (arith, one) in
          let held =
            found_of_count p p w.job_queue (λ x t. t) ((==_iff (count p w.job_queue) 1).0 one) in
          let found =
            select_by_key (λ j. j.job_id) job p w.job_queue s.jobs.jobs (λ x t. ground arith)
              held.1 in
          record {
            row = f held.0;
            found =
                ap (select_one (λ j. j.job_id == job)) after
                ∙ select_one-update (λ j. j.job_id == job) p f w.job_queue (λ x. refl)
                ∙ ap (Option.map (λ x. if p x then f x else x)) found
                ∙ rw (select_one_holds p w.job_queue held.1) refl;
            ended = ended;
          }
      | inr other ↦ absurd (ground (arith, other))
    ]

pub complete_job-HasEndedJob :
    (job site : Uuid) (epoch : ℕ) (w : World) {w' : World}
    → IsSound w
    → complete_job job site epoch w ≡ (ok tt, w')
    → HasEndedJob job w'
unfolding complete_job
complete_job-HasEndedJob job site epoch w =
    end_job-HasEndedJob completed job site epoch w (inl refl)

pub fail_job-HasEndedJob :
    (job site : Uuid) (epoch : ℕ) (w : World) {w' : World}
    → IsSound w
    → fail_job job site epoch w ≡ (ok tt, w')
    → HasEndedJob job w'
unfolding fail_job
fail_job-HasEndedJob job site epoch w = end_job-HasEndedJob failed job site epoch w (inr refl)

end_job-runs :
    (status : JobStatus) (job site : Uuid) (epoch : ℕ) (w : World)
    → (end_job status job site epoch w).1.schedule_run ≡ w.schedule_run
unfolding end_job
end_job-runs status job site epoch w = ground arith

-- Ending the job leaves the run as it ended.
pub HasEnded-runs :
    {run : Uuid} {status : RunStatus} (v w : World)
    → w.schedule_run ≡ v.schedule_run
    → HasEnded run status v
    → HasEnded run status w
HasEnded-runs {run} v w e h = record {
  row = h.row;
  found = ap (select_one (λ r. r.id == run)) e ∙ h.found;
  agrees = h.agrees;
  terminal = h.terminal;
}

pub complete_job-runs :
    (job site : Uuid) (epoch : ℕ) (w : World)
    → (complete_job job site epoch w).1.schedule_run ≡ w.schedule_run
unfolding complete_job
complete_job-runs = end_job-runs completed

pub fail_job-runs :
    (job site : Uuid) (epoch : ℕ) (w : World)
    → (fail_job job site epoch w).1.schedule_run ≡ w.schedule_run
unfolding fail_job
fail_job-runs = end_job-runs failed
