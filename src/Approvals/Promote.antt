-- ===== src/Approvals/Promote.antt =====
-- `promote_baseline`: the consumption, the baseline's compare-and-set, the audit row, the
-- conversation's writes and the draft's end, in the caller's transaction.
use roster_ai.Base.{ℕ, String, true, Option, none, some, List, [], ◌∷◌}
use roster_ai.Contracts.JobLease.{Uuid, Instant}
use roster_ai.Contracts.Scheduling.{Candidate}
use roster_ai.Contracts.Approvals.{
  ApprovalState, ApprovalBinding, SiteBaseline, AuditEnvelope, decided, consumed, is_pending,
}
use roster_ai.Store.{
  Fault, assertion_error, post_write_approval_not_pending, baseline_concurrently_moved,
  approval_payload_unreadable,
}
use roster_ai.Store.Tx.{Tx, pure, raise, require, ◌>>=◌, ◌>>◌}
use roster_ai.Repository.Rows.{uuid4}
use roster_ai.Approvals.Rows.{consume, promote, append_audit, get_pending_payload, mark_applied}
use roster_ai.Approvals.Conversations.{append_approval_activity, resume_agent_run_for_approval}

-- `AgentApprovalPendingV1`, with the ids of its calls and the turn as JSON
pub record AgentApprovalPending : Type 0 where
  pub pending_calls : List String
  pub turn : ℕ

-- `ResumeRequestV1`
pub record ResumeRequest : Type 0 where
  pub agent_run_id : Uuid
  pub tool_call_id : String
  pub history : ℕ

-- `PromotionResultV1`
pub record Promotion : Type 0 where
  pub binding : ApprovalBinding
  pub baseline : SiteBaseline
  pub resume : Option ResumeRequest

-- A read or a compare-and-set that must find its row.
abbrev pub require_some {ℓ} : {A : Type ℓ} → Option A → Fault → Tx A
require_some none e = raise e
require_some (some a) e = pure a

-- The audit row of a decision.
abbrev pub decision_audit :
    ApprovalBinding
    → Uuid
    → Uuid
    → ApprovalState
    → Option Uuid
    → Instant
    → Uuid
    → Uuid
    → AuditEnvelope
decision_audit b actor request outcome after at audit attempt = record {
  audit_id = audit;
  attempt_id = attempt;
  request_id = request;
  site_id = b.site_id;
  initiated_by_actor_id = b.initiated_by_actor_id;
  decided_by_actor_id = some actor;
  conversation_id = b.conversation_id;
  agent_run_id = b.agent_run_id;
  approval_id = b.approval_id;
  schedule_run_id = b.schedule_run_id;
  outcome = decided outcome;
  success = true;
  effect_key = b.request_effect_key;
  before_version = b.baseline_schedule_version;
  after_version = after;
  parameter_hash = b.parameter_hash;
  consequence_hash = b.consequence_hash;
  policy_version = b.policy_version;
  occurred_at = at;
}

-- TypeAdapter(AgentApprovalPendingV1).validate_python, which may refuse the payload.
module _ (validate_pending : ℕ → Option AgentApprovalPending) where
  -- The payload must carry exactly one call.
  abbrev pub sole_call : AgentApprovalPending → List String → Tx String
  sole_call p (call ∷ []) = pure call
  sole_call p _ = raise approval_payload_unreadable

  abbrev pub resume_run :
      ApprovalBinding → ApprovalBinding → Uuid → Instant → Uuid → Tx (Option ResumeRequest)
  resume_run b used request at agent = do
    stored ← get_pending_payload b.approval_id b.site_id
    payload ← require_some stored approval_payload_unreadable
    waiting ← require_some (validate_pending payload) approval_payload_unreadable
    call ← sole_call waiting waiting.pending_calls
    resume_agent_run_for_approval agent used request at
    pure (some (record { agent_run_id = agent; tool_call_id = call; history = waiting.turn }))

  abbrev pub continue_conversation :
      ApprovalBinding
      → ApprovalBinding
      → Uuid
      → Uuid
      → Instant
      → Option Uuid
      → Tx (Option ResumeRequest)
  continue_conversation b used actor request at none =
      append_approval_activity used actor request none (some at) >> pure none
  continue_conversation b used actor request at (some agent) = resume_run b used request at agent

  -- What is written after the compare-and-set of the baseline.
  abbrev pub conclude :
      ApprovalBinding → ApprovalBinding → SiteBaseline → Uuid → Uuid → Instant → Tx Promotion
  conclude b used moved actor request at = do
    audit ← uuid4
    attempt ← uuid4
    append_audit (
        decision_audit b actor request consumed (some b.candidate_schedule_version_id) at audit
          attempt)
    resume ← continue_conversation b used actor request at b.agent_run_id
    mark_applied b.site_id b.candidate_schedule_version_id
    pure (record { binding = used; baseline = moved; resume = resume })

  abbrev pub after_consumption :
      ApprovalBinding → Uuid → Uuid → Instant → Option ApprovalBinding → Tx Promotion
  after_consumption b actor request at closed = do
    used ← require_some closed post_write_approval_not_pending
    row ← promote b.site_id b.candidate_schedule_version_id actor at b.baseline_resource_version
    moved ← require_some row baseline_concurrently_moved
    conclude b used moved actor request at

  -- `promote_baseline`
  unfoldable pub promote_baseline :
      ApprovalBinding → Option Candidate → Uuid → Uuid → Instant → Tx Promotion
  unfolding uuid4 consume promote append_audit get_pending_payload mark_applied
      append_approval_activity resume_agent_run_for_approval
  promote_baseline b candidate actor request at = do
    require (is_pending b.state) assertion_error
    target ← require_some candidate assertion_error
    closed ← consume b.approval_id b.site_id actor at b.resource_version
    after_consumption b actor request at closed
