-- ===== src/Contracts/Approvals.antt =====
-- backend/application/contracts/approval_binding.py and audit_envelope.py, the ports' records of
-- the baseline, and the rows of conversations, agent runs and drafts that a decision reads.
use roster_ai.Base.{ℕ, String, Bool, true, false, ◌&&◌, Option, none, some, leb, if◌then◌else◌}
use roster_ai.Contracts.JobLease.{Uuid, Instant}

-- `ApprovalStateV1`
pub data ApprovalState : Type 0 where
  pending consumed rejected expired stale : ApprovalState

abbrev pub is_pending : ApprovalState → Bool
is_pending pending = true
is_pending _ = false

-- The pieces of the text `consequence_summary`.
pub record ConsequenceSummary : Type 0 where
  pub candidate : Uuid
  pub baseline : Option Uuid
  pub scenario_version : Uuid
  pub assignments : ℕ

-- `ApprovalBindingV1`, without its constants; the text of a baseline's id is the id
pub record ApprovalBinding : Type 0 where
  pub approval_id : Uuid
  pub state : ApprovalState
  pub site_id : Uuid
  pub initiated_by_actor_id : Uuid
  pub decided_by_actor_id : Option Uuid
  pub conversation_id : Uuid
  pub agent_run_id : Option Uuid
  pub schedule_run_id : Uuid
  pub candidate_schedule_version_id : Uuid
  pub scenario_version_id : Uuid
  pub baseline_schedule_version : Option Uuid
  pub baseline_resource_version : Option ℕ
  pub parameter_hash : ℕ
  pub consequence_summary : ConsequenceSummary
  pub consequence_hash : ℕ
  pub policy_version : String
  pub created_at : Option Instant
  pub expires_at : Option Instant
  pub decided_at : Option Instant
  pub consumed_at : Option Instant
  pub request_effect_key : String
  pub resource_version : ℕ

abbrev pub overdue : Instant → Option Instant → Bool
overdue now none = false
overdue now (some t) = leb t now

-- `presented_approval_state`
unfoldable pub presented_approval_state : ApprovalBinding → Instant → ApprovalState
presented_approval_state binding now =
    if is_pending binding.state && overdue now binding.expires_at then expired else binding.state

-- The mappings whose digests a binding signs.
pub data Signed : Type 0 where
  parameter : Uuid → Uuid → Option Uuid → Option ℕ → Signed
  consequence : ConsequenceSummary → Signed

-- The row of `approval_request`; `pending_payload` is JSON
pub record ApprovalRequest : Type 0 where
  pub binding : ApprovalBinding
  pub pending_payload : Option ℕ

-- `SiteBaselineV1`, with the row's actor and time
pub record SiteBaseline : Type 0 where
  pub site_id : Uuid
  pub schedule_version_id : Uuid
  pub resource_version : ℕ
  pub updated_at : Instant
  pub updated_by_actor_id : Uuid

-- The outcomes `approval_…` of an audit row.
pub data AuditOutcome : Type 0 where
  requested denied : AuditOutcome
  decided : ApprovalState → AuditOutcome

-- `AuditEnvelopeV1`, without its constants, the application's version, the summary and references
pub record AuditEnvelope : Type 0 where
  pub audit_id : Uuid
  pub attempt_id : Uuid
  pub request_id : Uuid
  pub site_id : Uuid
  pub initiated_by_actor_id : Uuid
  pub decided_by_actor_id : Option Uuid
  pub conversation_id : Uuid
  pub agent_run_id : Option Uuid
  pub approval_id : Uuid
  pub schedule_run_id : Uuid
  pub outcome : AuditOutcome
  pub success : Bool
  pub effect_key : String
  pub before_version : Option Uuid
  pub after_version : Option Uuid
  pub parameter_hash : ℕ
  pub consequence_hash : ℕ
  pub policy_version : String
  pub occurred_at : Instant

-- The statuses of `agent_run` that an approval reads or writes, and the others.
pub data AgentRunStatus : Type 0 where
  agent_running approval_required agent_cancelled other_status : AgentRunStatus

-- `agent_run`; its `status_reason` is the outcome that cancelled it
pub record AgentRun : Type 0 where
  pub id : Uuid
  pub status : AgentRunStatus
  pub status_reason : Option ApprovalState

-- `conversation`
pub record Conversation : Type 0 where
  pub id : Uuid
  pub resource_version : ℕ

-- A row of `persisted_event` in a conversation's stream, with its approval activity.
pub record ConversationEvent : Type 0 where
  pub stream_id : Uuid
  pub sequence : ℕ
  pub occurred_at : Instant
  pub resource_version : ℕ
  pub request_id : Uuid
  pub agent_run_id : Option Uuid
  pub site_id : Uuid
  pub actor_id : Uuid
  pub activity_id : Uuid
  pub approval_id : Uuid
  pub approval_state : ApprovalState

-- `membership`
pub record Membership : Type 0 where
  pub app_user_id : Uuid
  pub site_id : Uuid
  pub revoked_at : Option Instant

-- `proposal`, the columns that a promotion reads and writes
pub record Proposal : Type 0 where
  pub id : Uuid
  pub site_id : Uuid
  pub active : Bool
  pub applied_version_id : Option Uuid
  pub resource_version : ℕ
