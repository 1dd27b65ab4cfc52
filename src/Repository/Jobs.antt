-- ===== src/Repository/Jobs.antt =====
-- The job queue: `enqueue_job`, `complete_job`, `fail_job`, the cancellation flag, and the SQL
-- functions `workflow.lease_next_job` and `workflow.renew_job_lease` of
-- backend/migrations/versions/a2b3c4d5e6f7_add_job_queue_and_lease_functions.py.

use roster_ai.Base.{
  ℕ, ◌+◌, String, Bool, true, false, not, ◌&&◌, ◌||◌, Option, none, some, List, [], ◌∷◌, ◌++◌, ◌==◌,
  ltb, any, is_some, str_eq, if◌then◌else◌,
}
use roster_ai.Base.Table.{select_one, update}
use roster_ai.Contracts.JobLease.{
  Uuid, Instant, JobLease, LeaseRenewal, JobStatus, is_queued, is_leased, leased, completed, failed,
  post_init,
}
use roster_ai.Store.{World, value_error, stale_lease, integrity_error}
use roster_ai.Store.Tx.{Tx, pure, raise, gets, modify, require, ◌>>=◌, ◌>>◌}
use roster_ai.Repository.Rows.{uuid4, is_job, is_run_job, run_job, update_jobs}

-- The primary key and `uq_job_queue_schedule_run` refuse a second job with the id or for the run.
abbrev pub clashes : JobLease → JobLease → Bool
clashes job j = j.job_id == job.job_id || j.schedule_run_id == job.schedule_run_id

unfoldable pub enqueue_job : JobLease → Uuid → Tx (Unit {0})
enqueue_job job site = do
  require (job.site_id == site) value_error
  clash ← gets (λ w. is_some (select_one (clashes job) w.job_queue))
  require (not clash) integrity_error
  modify (λ w. record w { job_queue = w.job_queue ++ job ∷ [] })

-- UPDATE job_queue SET cancellation_requested = true
unfoldable pub set_job_cancellation_requested : Uuid → Uuid → Tx (Unit {0})
set_job_cancellation_requested run site = modify λ w. record w {
  job_queue =
      update (is_run_job run site) (λ j. record j { cancellation_requested = true }) w.job_queue;
}

abbrev pub flag_of : Option JobLease → Bool
flag_of none = false
flag_of (some j) = j.cancellation_requested

unfoldable pub get_job_cancellation_requested : Uuid → Uuid → Tx Bool
get_job_cancellation_requested run site = gets (λ w. flag_of (run_job run site w))

abbrev pub epoch_of : Option JobLease → ℕ → Bool
epoch_of none epoch = false
epoch_of (some j) epoch = j.fencing_epoch == epoch

-- WHERE id, site_id, status = 'leased' and fencing_epoch are the expected ones
abbrev pub holds_lease : Uuid → Uuid → ℕ → JobLease → Bool
holds_lease job site epoch j = is_job job site j && is_leased j.status && j.fencing_epoch == epoch

-- `complete_job` and `fail_job` are one text at two statuses.
unfoldable pub end_job : JobStatus → Uuid → Uuid → ℕ → Tx (Unit {0})
unfolding update_jobs
end_job status job site epoch = do
  w ← gets (λ w. w)
  rowcount ←
      update_jobs (λ j. is_job job site j && is_leased j.status && j.fencing_epoch == epoch)
        (λ j. record j { status = status; heartbeat_at = some w.now })
  if rowcount == 1 then pure tt else do
    current ← gets (λ w. select_one (is_job job site) w.job_queue)
    if not (epoch_of current epoch) then raise stale_lease else raise value_error

unfoldable pub complete_job : Uuid → Uuid → ℕ → Tx (Unit {0})
unfolding end_job
complete_job = end_job completed

unfoldable pub fail_job : Uuid → Uuid → ℕ → Tx (Unit {0})
unfolding end_job
fail_job = end_job failed

abbrev pub expired : Instant → Option Instant → Bool
expired now none = false
expired now (some t) = ltb t now

-- WHERE status = 'queued' OR (status = 'leased' AND lease_expires_at < now())
abbrev pub is_leasable : Instant → JobLease → Bool
is_leasable now j = is_queued j.status || is_leased j.status && expired now j.lease_expires_at

-- ORDER BY created_at, id
abbrev pub precedes : JobLease → JobLease → Bool
precedes a b =
    ltb a.created_at b.created_at || a.created_at == b.created_at && ltb a.job_id b.job_id

abbrev pub is_locked : World → JobLease → Bool
is_locked w j = any (λ id. id == j.job_id) w.locked

-- What the query may lock, and so return: FOR UPDATE SKIP LOCKED.
abbrev pub is_takeable : World → JobLease → Bool
is_takeable w j = is_leasable w.now j && not (is_locked w j)

-- The first such row in that order (LIMIT 1)
unfoldable pub first_leasable : World → List JobLease → Option JobLease
first_leasable w [] = none
first_leasable w (j ∷ js) =
    let rest = first_leasable w js in
    if is_takeable w j
    then elim rest [ none ↦ some j | some k ↦ if precedes k j then some k else some j ]
    else rest

abbrev pub leased_row : String → ℕ → World → Uuid → ℕ → JobLease → JobLease
leased_row owner seconds w attempt epoch j = record j {
  status = leased;
  lease_owner = some owner;
  lease_expires_at = some (w.now + seconds);
  heartbeat_at = some w.now;
  fencing_epoch = epoch + 1;
  attempt_id = some attempt;
}

-- `JobLeaseV1(...)` over the row: a record that `__post_init__` refuses raises `ValueError`.
abbrev pub checked : JobLease → Tx (Option JobLease)
checked j = if post_init j then pure (some j) else raise value_error

abbrev pub take_lease : String → ℕ → Option JobLease → Tx (Option JobLease)
take_lease owner seconds none = pure none
take_lease owner seconds (some job) = do
  attempt ← uuid4
  w ← gets (λ w. w)
  modify λ w. record w {
    job_queue =
        update (λ q. q.job_id == job.job_id) (leased_row owner seconds w attempt job.fencing_epoch)
          w.job_queue;
  }
  checked (leased_row owner seconds w attempt job.fencing_epoch job)

-- The owner's name is taken as it stands after btrim().
unfoldable pub lease_next_job : String → ℕ → Tx (Option JobLease)
unfolding first_leasable uuid4
lease_next_job owner seconds = do
  require (not (str_eq owner "")) value_error
  require (ltb 0 seconds) value_error
  found ← gets (λ w. first_leasable w w.job_queue)
  take_lease owner seconds found

-- `v_cancelled IS NOT NULL, COALESCE(v_cancelled, false)`; `site` is the session's app.site_id
unfoldable pub renew_job_lease : Uuid → Uuid → ℕ → ℕ → Tx LeaseRenewal
renew_job_lease site job epoch extension = do
  require (ltb 0 extension) value_error
  held ← gets (λ w. select_one (holds_lease job site epoch) w.job_queue)
  modify λ w. record w {
    job_queue =
        update (holds_lease job site epoch)
          (λ j. record j { lease_expires_at = some (w.now + extension); heartbeat_at = some w.now })
          w.job_queue;
  }
  pure (record { renewed = is_some held; cancellation_requested = flag_of held })
