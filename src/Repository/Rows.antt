-- ===== src/Repository/Rows.antt =====
-- The tests of the WHERE clauses, and the reads that return one row.
use mathlib.Core.Option
use roster_ai.Base.{ℕ, suc, Bool, ◌&&◌, Option, none, some, List, ◌==◌, ltb}
use roster_ai.Base.Table.{select_one, update, count}
use roster_ai.Contracts.RunStatus.{RunStatus, status_in}
use roster_ai.Contracts.JobLease.{Uuid, JobLease, is_leased}
use roster_ai.Contracts.Scheduling.{RunSnapshot}
use roster_ai.Store.{World, ScheduleRun, SnapshotRow}
use roster_ai.Store.Tx.{Tx, ok, gets}

-- uuid4()
unfoldable pub uuid4 : Tx Uuid
uuid4 w = (ok w.next_uuid, record w { next_uuid = suc w.next_uuid })

-- `request_id or uuid4()`
unfoldable pub or_uuid4 : Option Uuid → Tx Uuid
unfolding uuid4
or_uuid4 none = uuid4
or_uuid4 (some u) = λ w. (ok u, w)

-- schedule_run.id = run AND schedule_run.site_id = site
abbrev pub is_run : Uuid → Uuid → ScheduleRun → Bool
is_run run site r = r.id == run && r.site_id == site

-- job_queue.schedule_run_id = run AND job_queue.site_id = site
abbrev pub is_run_job : Uuid → Uuid → JobLease → Bool
is_run_job run site j = j.schedule_run_id == run && j.site_id == site

-- job_queue.id = job AND job_queue.site_id = site
abbrev pub is_job : Uuid → Uuid → JobLease → Bool
is_job job site j = j.job_id == job && j.site_id == site

-- The predicate of `_has_current_epoch` and of `_claim_epoch`.
abbrev pub holds_epoch : Uuid → Uuid → ℕ → JobLease → Bool
holds_epoch run site epoch j =
    is_run_job run site j && is_leased j.status && j.fencing_epoch == epoch && ltb 0 j.fencing_epoch

abbrev pub run_row : Uuid → Uuid → World → Option ScheduleRun
run_row run site w = select_one (is_run run site) w.schedule_run

-- The row with a primary key, whatever its site.
abbrev pub row_of : Uuid → World → Option ScheduleRun
row_of run w = select_one (λ r. r.id == run) w.schedule_run

abbrev pub run_job : Uuid → Uuid → World → Option JobLease
run_job run site w = select_one (is_run_job run site) w.job_queue

-- `ScheduleRunStateV1`
pub record RunState : Type 0 where
  pub status : RunStatus
  pub resource_version : ℕ

unfoldable pub get_run_state : Uuid → Uuid → Tx (Option RunState)
get_run_state run site = gets λ w.
    Option.map (λ r. record { status = r.status; resource_version = r.resource_version })
      (run_row run site w)

-- The row of `run_snapshot` that a run names.
abbrev is_snapshot_of : Uuid → Uuid → ScheduleRun → SnapshotRow → Bool
is_snapshot_of run site r s = s.payload.snapshot_id == r.run_snapshot_id && s.site_id == r.site_id

unfoldable pub load_snapshot : Uuid → Uuid → Tx (Option RunSnapshot)
load_snapshot run site = gets λ w.
    Option.bind (run_row run site w)
      λ r. Option.map (λ s. s.payload) (select_one (is_snapshot_of run site r) w.run_snapshot)

unfoldable pub count_runs_with_statuses : Uuid → List RunStatus → Tx ℕ
count_runs_with_statuses site statuses =
    gets λ w. count (λ r. r.site_id == site && status_in r.status statuses) w.schedule_run

-- UPDATE schedule_run SET f WHERE p RETURNING …, read by one_or_none()
unfoldable pub update_run :
    (ScheduleRun → Bool) → (ScheduleRun → ScheduleRun) → Tx (Option ScheduleRun)
update_run p f w = (
  ok (Option.map f (select_one p w.schedule_run)),
  record w { schedule_run = update p f w.schedule_run },
)

-- UPDATE job_queue SET f WHERE p, with its rowcount
unfoldable pub update_jobs : (JobLease → Bool) → (JobLease → JobLease) → Tx ℕ
update_jobs p f w = (ok (count p w.job_queue), record w { job_queue = update p f w.job_queue })
