-- ===== src/Contracts/JobLease.antt =====
-- backend/application/contracts/job_lease.py: the job's status and its record, which is also a row
-- of `workflow.job_queue`. UUIDs and instants are numbers: they are compared, and instants are UTC.
use Prim.Native.String.{count}
use roster_ai.Base.{
  ℕ, String, Bool, true, false, not, ◌&&◌, Option, ltb, leb, is_some, if◌then◌else◌,
}
use text.Mathlib.Text.{◌==◌ as str_eq}

abbrev pub Uuid : Type 0
Uuid = ℕ

abbrev pub Instant : Type 0
Instant = ℕ

pub data JobStatus : Type 0 where
  queued leased completed failed : JobStatus

abbrev pub is_leased : JobStatus → Bool
is_leased leased = true
is_leased _ = false

abbrev pub is_queued : JobStatus → Bool
is_queued queued = true
is_queued _ = false

-- MAX_IDEMPOTENCY_KEY_LENGTH
abbrev pub max_idempotency_key_length : ℕ
max_idempotency_key_length = 40

pub record JobLease : Type 0 where
  pub job_id : Uuid
  pub status : JobStatus
  pub site_id : Uuid
  pub actor_id : Uuid
  pub attempt_id : Option Uuid
  pub contract_version : String
  pub capability_version : Option String
  pub schedule_run_id : Uuid
  pub idempotency_key : String
  pub lease_owner : Option String
  pub lease_expires_at : Option Instant
  pub heartbeat_at : Option Instant
  pub fencing_epoch : ℕ
  pub cancellation_requested : Bool
  pub created_at : Instant

-- `JobLeaseV1.__post_init__`: whether it returns. The fields that the type makes present, the one
-- job type and the UTC check of an `Instant` need no test.
unfoldable pub post_init : JobLease → Bool
post_init j =
    not (str_eq j.contract_version "")
    && not (str_eq j.idempotency_key "")
    && leb (count j.idempotency_key) max_idempotency_key_length
    && (if is_queued j.status
        then not (is_some j.attempt_id)
          && not (is_some j.lease_owner)
          && not (is_some j.lease_expires_at)
        else true)
    && (if is_leased j.status
        then is_some j.attempt_id
          && is_some j.lease_owner
          && is_some j.lease_expires_at
          && is_some j.heartbeat_at
          && ltb 0 j.fencing_epoch
        else true)

pub record LeaseRenewal : Type 0 where
  pub renewed : Bool
  pub cancellation_requested : Bool
