-- ===== src/Approvals/Decide.antt =====
-- `revalidate_binding` and `decide_approval`. The problem contexts, which only describe a refusal,
-- and telemetry are left out. A policy's version is the digest of its inputs.
use mathlib.Core.Option
use roster_ai.Base.{
  ℕ, String, Bool, true, false, ◌&&◌, Option, none, some, is_some, if◌then◌else◌, ◌==◌, str_eq,
}
use roster_ai.Contracts.JobLease.{Uuid, Instant}
use roster_ai.Contracts.Scheduling.{Candidate, SolverStatus, optimal, feasible}
use roster_ai.Contracts.Approvals.{
  ApprovalState, ApprovalBinding, SiteBaseline, Signed, parameter, consequence, consumed, rejected,
  expired, stale, is_pending, overdue,
}
use roster_ai.Store.{
  World, ScheduleRun, approval_not_granted, approval_not_found, approval_not_pending,
  stale_resource_version, concurrent_decision,
}
use roster_ai.Store.Tx.{Tx, pure, raise, require, ◌>>=◌, ◌>>◌}
use roster_ai.Repository.Rows.{uuid4}
use roster_ai.Approvals.Rows.{
  get, get_baseline, get_run, get_candidate, has_active_membership, terminalize, append_audit,
}
use roster_ai.Approvals.Conversations.{append_approval_activity, cancel_agent_run_for_approval}
use roster_ai.Approvals.Promote.{
  AgentApprovalPending, ResumeRequest, Promotion, require_some, decision_audit, promote_baseline,
}
use roster_ai.UseCases.Sessions.{read}

-- feasible_solver_status in ("OPTIMAL", "FEASIBLE")
abbrev pub is_feasible : SolverStatus → Bool
is_feasible optimal = true
is_feasible feasible = true
is_feasible _ = false

abbrev pub uuid_eq : Option Uuid → Option Uuid → Bool
uuid_eq none none = true
uuid_eq (some a) (some b) = a == b
uuid_eq _ _ = false

-- What the binding is checked against.
pub record Current : Type 0 where
  pub candidate : Option Candidate
  pub run : Option ScheduleRun
  pub baseline : Option SiteBaseline
  pub active_initiator : Bool

-- `DecideApprovalCommandV1`
pub record DecisionCommand : Type 0 where
  pub site_id : Uuid
  pub actor_id : Uuid
  pub approval_id : Uuid
  pub approve : Bool
  pub expected_resource_version : ℕ
  pub request_id : Uuid

-- `DecisionResultV1`
pub record Decision : Type 0 where
  pub outcome : ApprovalState
  pub binding : ApprovalBinding
  pub baseline : Option SiteBaseline
  pub resume : Option ResumeRequest

-- `contract_digest(…)[2]` of what a binding signs, and the digest of the policy's inputs.
module _ (contract_digest : Signed → ℕ) (policy_digest : Bool → String) where
  abbrev pub valid_candidate : ApprovalBinding → Option Candidate → Bool
  valid_candidate b none = false
  valid_candidate b (some c) =
      c.schedule_version_id == b.candidate_schedule_version_id
      && is_feasible c.feasible_solver_status

  abbrev pub parameter_hash : ApprovalBinding → Option ScheduleRun → ℕ
  parameter_hash b run = contract_digest (
      parameter b.schedule_run_id b.candidate_schedule_version_id b.baseline_schedule_version
        (Option.map (λ r. r.resource_version) run))

  -- The conjunction `valid`.
  abbrev pub is_valid : Bool → ApprovalBinding → Current → Bool
  is_valid enabled b c =
      c.active_initiator
      && valid_candidate b c.candidate
      && is_some c.run
      && uuid_eq (Option.map (λ s. s.schedule_version_id) c.baseline) b.baseline_schedule_version
      && uuid_eq (Option.map (λ s. s.resource_version) c.baseline) b.baseline_resource_version
      && parameter_hash b c.run == b.parameter_hash
      && contract_digest (consequence b.consequence_summary) == b.consequence_hash
      && str_eq (policy_digest enabled) b.policy_version

  -- The reads of the revalidation; they write nothing.
  unfoldable pub read_current : ApprovalBinding → Tx Current
  unfolding get_candidate get_run get_baseline has_active_membership
  read_current b = do
    candidate ← get_candidate b.schedule_run_id b.site_id
    run ← get_run b.schedule_run_id b.site_id
    baseline ← get_baseline b.site_id
    active ← has_active_membership b.initiated_by_actor_id b.site_id
    pure (record {
      candidate = candidate;
      run = run;
      baseline = baseline;
      active_initiator = active;
    })

  -- `revalidate_binding`: none, or the outcome `expired` or `stale`
  abbrev pub revalidate : Bool → Instant → ApprovalBinding → Current → Option ApprovalState
  revalidate enabled now b c =
      if overdue now b.expires_at
      then some expired
      else if is_valid enabled b c
      then none
      else some stale

  module _ (validate_pending : ℕ → Option AgentApprovalPending) (command : DecisionCommand)
      (now : Instant) where
    abbrev pub consumption : Promotion → Decision
    consumption p = record {
      outcome = consumed;
      binding = p.binding;
      baseline = some p.baseline;
      resume = p.resume;
    }

    abbrev pub cancel_agent : ApprovalBinding → ApprovalState → Option Uuid → Tx (Unit {0})
    cancel_agent b outcome none = pure tt
    cancel_agent b outcome (some agent) = cancel_agent_run_for_approval agent b outcome

    -- TX3: the terminal state, the agent run's cancellation, the audit row and the activity.
    unfoldable pub terminate : ApprovalBinding → ApprovalState → Tx Decision
    unfolding uuid4 terminalize append_audit append_approval_activity cancel_agent_run_for_approval
    terminate b outcome = do
      row ←
          terminalize b.approval_id command.site_id outcome command.actor_id now b.resource_version
      ended ← require_some row concurrent_decision
      cancel_agent ended outcome ended.agent_run_id
      audit ← uuid4
      attempt ← uuid4
      append_audit
          (decision_audit ended command.actor_id command.request_id outcome none now audit attempt)
      append_approval_activity ended command.actor_id command.request_id ended.agent_run_id
          (some now)
      pure (record { outcome = outcome; binding = ended; baseline = none; resume = none })

    -- `except ApprovalNotPendingError` raises the post-write error, which is what was raised.
    abbrev pub decide_valid : ApprovalBinding → Option Candidate → Tx Decision
    decide_valid b candidate =
        if command.approve
        then (promote_baseline validate_pending b candidate command.actor_id command.request_id now
            >>= λ p. pure (consumption p))
        else terminate b rejected

    abbrev pub decide_checked :
        ApprovalBinding → Option Candidate → Option ApprovalState → Tx Decision
    decide_checked b candidate none = decide_valid b candidate
    decide_checked b candidate (some outcome) = terminate b outcome

    abbrev pub decide_binding : Bool → World → Option ApprovalBinding → Tx Decision
    decide_binding enabled before none = raise approval_not_found
    decide_binding enabled before (some b) = do
      require (is_pending b.state) approval_not_pending
      require (b.resource_version == command.expected_resource_version) stale_resource_version
      current ← read before (read_current b)
      decide_checked b current.candidate (revalidate enabled now b current)

    -- The reads see the store `before`; the writes fall on the store as others have left it by then.
    unfoldable pub decide_approval : Bool → World → Tx Decision
    unfolding get read_current terminate promote_baseline
    decide_approval enabled before = do
      require enabled approval_not_granted
      found ← read before (get command.approval_id command.site_id)
      decide_binding enabled before found
