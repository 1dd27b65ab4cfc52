-- ===== src/Lifecycle/Fencing.antt =====
-- The fenced writers of the repository against a job whose epoch has passed the one that they bring.

use roster_ai.Base.{
  ℕ, ◌<◌, ◌≡◌, refl, Bool, true, false, ◌&&◌, Option, none, some, inl, inr, Bool-cases, arith, ◌==◌,
  leb, String,
}
use roster_ai.Base.Table.{select_one, count, select_one_holds}
use roster_ai.Base.Unique.{count_found, update_absent, count-le}
use roster_ai.Contracts.RunStatus.{RunStatus, is_terminal}
use roster_ai.Contracts.Scheduling.{Candidate}
use roster_ai.Contracts.JobLease.{Uuid, Instant, JobLease, JobStatus}
use roster_ai.Store.{World, stale_lease}
use roster_ai.Store.Tx.{raised}
use roster_ai.Repository.Rows.{is_job, is_run_job, holds_epoch}
use roster_ai.Repository.Fence.{claim_epoch}
use roster_ai.Repository.Transitions.{mark_running, finalize_run}
use roster_ai.Repository.Jobs.{end_job, holds_lease, epoch_of}

-- How a writer names its job: by its run, or by its id.
pub data JobName : Type 0 where
  by_run by_job : Uuid → Uuid → JobName

abbrev pub names : JobName → JobLease → Bool
names (by_run run site) j = is_run_job run site j
names (by_job job site) j = is_job job site j

abbrev pub names_at_most : JobName → ℕ → JobLease → Bool
names_at_most n epoch j = names n j && leb j.fencing_epoch epoch

-- The named job is there, and its epoch has passed `epoch`.
pub record IsSuperseded (n : JobName) (epoch : ℕ) (w : World) : Type 0 where
  pub present : 0 < count (names n) w.job_queue
  pub passed : count (names_at_most n epoch) w.job_queue ≡ 0

-- No row holds the lease at that epoch.
none_hold :
    (run site : Uuid) (epoch : ℕ) (w : World)
    → IsSuperseded (by_run run site) epoch w
    → count (holds_epoch run site epoch) w.job_queue ≡ 0
none_hold run site epoch w h = omega (
  arith,
  h.passed,
  count-le (holds_epoch run site epoch) (names_at_most (by_run run site) epoch) w.job_queue
      (λ j t. ground arith),
)

claim_epoch_superseded :
    (run site : Uuid) (epoch : ℕ) (w : World)
    → IsSuperseded (by_run run site) epoch w
    → (claim_epoch run site epoch w).0 ≡ raised stale_lease
unfolding claim_epoch
claim_epoch_superseded run site epoch w h = rw (none_hold run site epoch w h)

-- The two fenced writers of the run.
pub mark_running_superseded :
    (run site : Uuid) (epoch : ℕ) (request : Option Uuid) (w : World)
    → IsSuperseded (by_run run site) epoch w
    → (mark_running run site epoch request w).0 ≡ raised stale_lease
unfolding mark_running
mark_running_superseded run site epoch request w h = rw (claim_epoch_superseded run site epoch w h)

pub finalize_run_superseded :
    (run site : Uuid) (epoch : ℕ) (status : RunStatus) (reason : Option String)
    (c : Option Candidate) (finished : Option Instant) (request : Option Uuid) (w : World)
    → is_terminal status ≡ true
    → IsSuperseded (by_run run site) epoch w
    → (finalize_run run site epoch status reason c finished request w).0 ≡ raised stale_lease
unfolding finalize_run
finalize_run_superseded run site epoch status reason c finished request w t h =
    rw (t, claim_epoch_superseded run site epoch w h)

none_end :
    (job site : Uuid) (epoch : ℕ) (w : World)
    → IsSuperseded (by_job job site) epoch w
    → count (holds_lease job site epoch) w.job_queue ≡ 0
none_end job site epoch w h = omega (
  arith,
  h.passed,
  count-le (holds_lease job site epoch) (names_at_most (by_job job site) epoch) w.job_queue
      (λ j t. ground arith),
)

epoch_moved :
    (job site : Uuid) (epoch : ℕ) (w : World) (o : Option JobLease)
    → IsSuperseded (by_job job site) epoch w
    → select_one (is_job job site) w.job_queue ≡ o
    → epoch_of o epoch ≡ false
epoch_moved job site epoch w none h found = refl
epoch_moved job site epoch w (some j) h found = elim (Bool-cases (j.fencing_epoch == epoch)) [
  | inl e ↦
      let own = select_one_holds (is_job job site) w.job_queue found in
      absurd (
        omega (
          arith,
          h.passed,
          count_found (is_job job site) (names_at_most (by_job job site) epoch) w.job_queue found
              (ground arith),
        ))
  | inr e ↦ e
]

pub end_job_superseded :
    (status : JobStatus) (job site : Uuid) (epoch : ℕ) (w : World)
    → IsSuperseded (by_job job site) epoch w
    → (end_job status job site epoch w).0 ≡ raised stale_lease
unfolding end_job
end_job_superseded status job site epoch w h =
    let none_left = none_end job site epoch w h in
    rw (
      none_left,
      update_absent (holds_lease job site epoch)
          (λ j. record j { status = status; heartbeat_at = some w.now }) w.job_queue none_left,
      epoch_moved job site epoch w (select_one (is_job job site) w.job_queue) h refl,
    )
