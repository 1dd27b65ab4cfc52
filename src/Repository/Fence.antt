-- ===== src/Repository/Fence.antt =====
-- The fencing epoch: `_has_current_epoch`, `_claim_epoch` and `_raise_transition_failure`.
use mathlib.Core.Option
use roster_ai.Base.{ℕ, Bool, false, not, ◌&&◌, Option, none, some, ◌==◌, if◌then◌else◌, any}
use roster_ai.Contracts.RunStatus.{RunStatus, status_eq, solver_running, solver_cancelled}
use roster_ai.Contracts.JobLease.{Uuid, JobLease}
use roster_ai.Store.{World, stale_lease, illegal_transition, run_transition_conflict}
use roster_ai.Store.Tx.{Tx, raise, gets, require, ◌>>=◌}
use roster_ai.Repository.Rows.{holds_epoch, run_job, run_row, update_jobs}

-- EXISTS (SELECT 1 FROM job_queue WHERE …)
abbrev pub has_current_epoch : Uuid → Uuid → ℕ → World → Bool
has_current_epoch run site epoch w = any (holds_epoch run site epoch) w.job_queue

-- SET heartbeat_at = now()
abbrev pub touch : World → JobLease → JobLease
touch w j = record j { heartbeat_at = some w.now }

unfoldable pub claim_epoch : Uuid → Uuid → ℕ → Tx (Unit {0})
unfolding update_jobs
claim_epoch run site epoch = do
  w ← gets (λ w. w)
  rowcount ← update_jobs (holds_epoch run site epoch) (touch w)
  require (rowcount == 1) stale_lease

-- `current_epoch == fencing_epoch`, where a missing job has no epoch
abbrev epoch_is : ℕ → Option ℕ → Bool
epoch_is epoch none = false
epoch_is epoch (some e) = e == epoch

-- (current_status, target_status) == ("solver_running", "solver_cancelled")
abbrev uncancelled_cancel : Option RunStatus → RunStatus → Bool
uncancelled_cancel none target = false
uncancelled_cancel (some s) target = status_eq s solver_running && status_eq target solver_cancelled

-- It always raises, so it stands for a value of any type.
unfoldable pub raise_transition_failure {ℓ} : {A : Type ℓ} → Uuid → Uuid → ℕ → RunStatus → Tx A
raise_transition_failure run site epoch target = do
  current ← gets (λ w. Option.map (λ j. j.fencing_epoch) (run_job run site w))
  if not (epoch_is epoch current) then raise stale_lease else do
    status ← gets (λ w. Option.map (λ r. r.status) (run_row run site w))
    if uncancelled_cancel status target
        then raise illegal_transition
        else raise run_transition_conflict
