-- ===== src/Approvals/Requests.antt =====
-- What each write of a decision does to `approval_request`.
use roster_ai.Base.{ℕ, String, ◌≡◌, Bool, Option, arith}
use roster_ai.Base.Table.{update}
use roster_ai.Contracts.JobLease.{Instant}
use roster_ai.Contracts.Approvals.{ApprovalState, ApprovalBinding}
use roster_ai.Store.{World}
use roster_ai.Repository.Rows.{uuid4}
use roster_ai.Approvals.Rows.{is_open, closed, terminalize, update_approval, append_audit}
use roster_ai.Approvals.Conversations.{append_approval_activity, cancel_agent_run_for_approval}
use roster_ai.Approvals.Promote.{AgentApprovalPending}
use roster_ai.Contracts.Approvals.{Signed}
use roster_ai.Approvals.Decide.{DecisionCommand, terminate}

module _ (contract_digest : Signed → ℕ) (policy_digest : Bool → String)
    (validate_pending : ℕ → Option AgentApprovalPending) (command : DecisionCommand)
    (now : Instant) where
  pub terminate-requests :
      (b : ApprovalBinding) (outcome : ApprovalState) (w : World)
      → (terminate contract_digest policy_digest validate_pending command now b outcome
          w).1.approval_request
        ≡ update
            (is_open b.approval_id command.site_id b.resource_version)
            (λ r. closed outcome command.actor_id now r.binding.consumed_at r)
            w.approval_request
  unfolding terminate terminalize update_approval uuid4 append_audit append_approval_activity
      cancel_agent_run_for_approval
  terminate-requests b outcome w = ground arith
