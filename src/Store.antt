-- ===== src/Store.antt =====
-- The rows that the run lifecycle reads and writes (backend/adapters/postgres/schema.py), the
-- errors it raises, and the transactions over them.
pub mod Tx
use roster_ai.Base.{ℕ, String, Bool, Option, List}
use roster_ai.Contracts.RunStatus.{RunStatus}
use roster_ai.Contracts.JobLease.{Uuid, Instant, JobLease}
use roster_ai.Contracts.Approvals.{
  ApprovalState, ApprovalRequest, SiteBaseline, AuditEnvelope, AgentRun, Conversation,
  ConversationEvent, Membership, Proposal,
}
use roster_ai.Contracts.Scheduling.{RunSnapshot, Candidate, Assignment}

-- `schedule_run`
pub record ScheduleRun : Type 0 where
  pub id : Uuid
  pub site_id : Uuid
  pub run_snapshot_id : Uuid
  pub status : RunStatus
  pub reason : Option String
  pub candidate_schedule_version_id : Option Uuid
  pub resource_version : ℕ
  pub finished_at : Option Instant

-- `persisted_event` of a run's stream, with its `RunProgressActivityV1` payload
pub record PersistedEvent : Type 0 where
  pub site_id : Uuid
  pub stream_id : Uuid
  pub sequence : ℕ
  pub event_type : String
  pub occurred_at : Instant
  pub resource_version : ℕ
  pub request_id : Uuid
  pub actor_id : Uuid
  pub activity_id : Uuid
  pub status : RunStatus
  pub reason : Option String

-- The operation strings `cancel_schedule_run:<run>`, `enqueue_compute:<proposal>` and
-- `decide_approval:<approval>`.
pub data Operation : Type 0 where
  cancel_schedule_run : Uuid → Operation
  enqueue_compute : Uuid → Operation
  decide_approval : Uuid → Operation

-- The command bodies that are hashed.
pub data Body : Type 0 where
  cancel_body : Uuid → ℕ → Body
  enqueue_body : Uuid → ℕ → Body
  decision_body : Bool → ℕ → Body

-- `ScheduleRunCancellationV1`
pub record Cancellation : Type 0 where
  pub schedule_run_id : Uuid
  pub status : RunStatus
  pub reason : String
  pub resource_version : ℕ
  pub cancellation_requested : Bool

-- `EnqueueComputeResultV1`
pub record EnqueueResult : Type 0 where
  pub schedule_run_id : Uuid
  pub job_id : Uuid

pub data Payload : Type 0 where
  cancellation : Cancellation → Payload
  enqueued : EnqueueResult → Payload
  decision : ApprovalState → Payload

-- `command_idempotency`
pub record IdempotentResult : Type 0 where
  pub site_id : Uuid
  pub actor_id : Uuid
  pub operation : Operation
  pub idempotency_key : String
  pub body_hash : ℕ
  pub response_payload : Payload

-- `run_snapshot`
pub record SnapshotRow : Type 0 where
  pub site_id : Uuid
  pub payload : RunSnapshot

-- `schedule_version`; its `id` and `schedule_run_id` columns
pub record ScheduleVersion : Type 0 where
  pub id : Uuid
  pub site_id : Uuid
  pub schedule_run_id : Uuid
  pub payload : Candidate

-- `schedule_assignment`
pub record AssignmentRow : Type 0 where
  pub site_id : Uuid
  pub schedule_version_id : Uuid
  pub assignment : Assignment

-- What the sessions share. `now` is the database's clock, `clock` the application's; `next_uuid`
-- is what `uuid4()` returns next; `locked` has the ids of the jobs whose rows other sessions hold
-- locked.
pub record World : Type 0 where
  pub schedule_run : List ScheduleRun
  pub job_queue : List JobLease
  pub persisted_event : List PersistedEvent
  pub command_idempotency : List IdempotentResult
  pub run_snapshot : List SnapshotRow
  pub schedule_version : List ScheduleVersion
  pub schedule_assignment : List AssignmentRow
  pub approval_request : List ApprovalRequest
  pub site_baseline : List SiteBaseline
  pub audit_event : List AuditEnvelope
  pub agent_run : List AgentRun
  pub conversation : List Conversation
  pub conversation_event : List ConversationEvent
  pub membership : List Membership
  pub proposal : List Proposal
  pub now : Instant
  pub clock : Instant
  pub next_uuid : Uuid
  pub locked : List Uuid

-- The exceptions, by class.
pub data Fault : Type 0 where
  value_error stale_lease run_not_cancellable run_transition_conflict illegal_transition fatal_job
        no_result_found assertion_error integrity_error data_error :
      Fault
  cancel_schedule_run_error idempotency_key_conflict stale_resource_version : Fault
  transient not_cancellable : Fault
  approval_not_granted approval_not_found approval_not_pending concurrent_decision
        post_write_approval_not_pending baseline_concurrently_moved approval_payload_unreadable
        agent_run_not_queued runtime_error :
      Fault
  proposal_not_found enqueue_compute_error key_error site_concurrency_exhausted rejected_proposal
        applied_proposal invalid_proposal scenario_unavailable stale_proposal :
      Fault
  candidate_not_found candidate_not_promotable stale_baseline_version approval_already_pending :
      Fault
