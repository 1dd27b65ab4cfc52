-- ===== src/Approvals/Request.antt =====
-- `request_approval`: TX1, which binds one feasible candidate for a decision.
use mathlib.Core.Option
use roster_ai.Base.{ℕ, ◌+◌, String, Bool, true, not, Option, none, some, List, any, ◌==◌, length}
use roster_ai.Contracts.RunStatus.{status_eq, solver_completed}
use roster_ai.Contracts.JobLease.{Uuid, Instant}
use roster_ai.Contracts.Scheduling.{Candidate}
use roster_ai.Contracts.Approvals.{
  ApprovalBinding, SiteBaseline, Signed, parameter, consequence, ConsequenceSummary, pending,
  is_pending, AuditEnvelope, requested,
}
use roster_ai.Store.{
  World, ScheduleRun, approval_not_granted, candidate_not_found, candidate_not_promotable,
  stale_resource_version, stale_baseline_version, approval_already_pending,
}
use roster_ai.Store.Tx.{Tx, pure, require, ◌>>=◌, ◌>>◌}
use roster_ai.Repository.Rows.{uuid4}
use roster_ai.Approvals.Rows.{
  get_run, get_candidate, list_for_schedule_run, get_baseline, create_pending, append_audit,
}
use roster_ai.Approvals.Conversations.{append_approval_activity, pause_agent_run_for_approval}
use roster_ai.Approvals.Promote.{require_some}
use roster_ai.Approvals.Decide.{is_feasible, uuid_eq}
use roster_ai.UseCases.Sessions.{read}

-- `RequestApprovalCommandV1`
pub record RequestCommand : Type 0 where
  pub site_id : Uuid
  pub actor_id : Uuid
  pub schedule_run_id : Uuid
  pub expected_resource_version : ℕ
  pub expected_baseline_schedule_version : Option Uuid
  pub request_effect_key : String
  pub request_id : Uuid
  pub conversation_id : Uuid
  pub agent_run_id : Option Uuid
  pub pending_payload : Option ℕ

module _ (contract_digest : Signed → ℕ) (policy_digest : Bool → String)
    (approval_expiry_seconds : ℕ) (c : RequestCommand) (now : Instant) where
  abbrev pub summary_of : Candidate → Option Uuid → ConsequenceSummary
  summary_of candidate baseline = record {
    candidate = candidate.schedule_version_id;
    baseline = baseline;
    scenario_version = candidate.scenario_version_id;
    assignments = length candidate.assignments;
  }

  abbrev pub new_binding : Bool → Candidate → Option SiteBaseline → Uuid → ApprovalBinding
  new_binding enabled candidate baseline approval =
      let current = Option.map (λ (s : SiteBaseline). s.schedule_version_id) baseline in
      record {
        approval_id = approval;
        state = pending;
        site_id = c.site_id;
        initiated_by_actor_id = c.actor_id;
        decided_by_actor_id = none;
        conversation_id = c.conversation_id;
        agent_run_id = c.agent_run_id;
        schedule_run_id = c.schedule_run_id;
        candidate_schedule_version_id = candidate.schedule_version_id;
        scenario_version_id = candidate.scenario_version_id;
        baseline_schedule_version = current;
        baseline_resource_version = Option.map (λ s. s.resource_version) baseline;
        parameter_hash = contract_digest (
            parameter c.schedule_run_id candidate.schedule_version_id current
              (some c.expected_resource_version));
        consequence_summary = summary_of candidate current;
        consequence_hash = contract_digest (consequence (summary_of candidate current));
        policy_version = policy_digest enabled;
        created_at = some now;
        expires_at = some (now + approval_expiry_seconds);
        decided_at = none;
        consumed_at = none;
        request_effect_key = c.request_effect_key;
        resource_version = 1;
      }

  abbrev pub request_audit : ApprovalBinding → Uuid → Uuid → AuditEnvelope
  request_audit b audit attempt = record {
    audit_id = audit;
    attempt_id = attempt;
    request_id = c.request_id;
    site_id = c.site_id;
    initiated_by_actor_id = c.actor_id;
    decided_by_actor_id = none;
    conversation_id = c.conversation_id;
    agent_run_id = c.agent_run_id;
    approval_id = b.approval_id;
    schedule_run_id = c.schedule_run_id;
    outcome = requested;
    success = true;
    effect_key = c.request_effect_key;
    before_version = b.baseline_schedule_version;
    after_version = none;
    parameter_hash = b.parameter_hash;
    consequence_hash = b.consequence_hash;
    policy_version = b.policy_version;
    occurred_at = now;
  }

  abbrev pub announce : ApprovalBinding → Option Uuid → Tx (Unit {0})
  announce b none = append_approval_activity b c.actor_id c.request_id none none >> pure tt
  announce b (some agent) = pause_agent_run_for_approval agent b c.request_id >> pure tt

  -- The writes of TX1.
  abbrev pub bind : Bool → Candidate → Option SiteBaseline → Tx ApprovalBinding
  bind enabled candidate baseline = do
    approval ← uuid4
    let b = new_binding enabled candidate baseline approval
    create_pending b c.pending_payload
    audit ← uuid4
    attempt ← uuid4
    append_audit (request_audit b audit attempt)
    announce b c.agent_run_id
    pure b

  abbrev pub with_baseline : Bool → Candidate → Option SiteBaseline → Tx ApprovalBinding
  with_baseline enabled candidate baseline = do
    require
        (uuid_eq (Option.map (λ s. s.schedule_version_id) baseline)
          c.expected_baseline_schedule_version)
        stale_baseline_version
    bind enabled candidate baseline

  abbrev pub with_existing : Bool → World → Candidate → List ApprovalBinding → Tx ApprovalBinding
  with_existing enabled before candidate existing = do
    require (not (any (λ b. is_pending b.state) existing)) approval_already_pending
    baseline ← read before (get_baseline c.site_id)
    with_baseline enabled candidate baseline

  abbrev pub with_candidate : Bool → World → Candidate → Tx ApprovalBinding
  with_candidate enabled before candidate = do
    require (is_feasible candidate.feasible_solver_status) candidate_not_promotable
    existing ← read before (list_for_schedule_run c.schedule_run_id c.site_id)
    with_existing enabled before candidate existing

  abbrev pub with_stored : Bool → World → Option Candidate → Tx ApprovalBinding
  with_stored enabled before stored =
      require_some stored candidate_not_promotable >>= with_candidate enabled before

  abbrev pub with_run : Bool → World → ScheduleRun → Tx ApprovalBinding
  with_run enabled before run = do
    require (status_eq run.status solver_completed) candidate_not_promotable
    require (run.resource_version == c.expected_resource_version) stale_resource_version
    stored ← read before (get_candidate c.schedule_run_id c.site_id)
    with_stored enabled before stored

  abbrev pub with_found : Bool → World → Option ScheduleRun → Tx ApprovalBinding
  with_found enabled before found =
      require_some found candidate_not_found >>= with_run enabled before

  -- `request_approval`, whose reads see the store `before`
  unfoldable pub request_approval : Bool → World → Tx ApprovalBinding
  unfolding get_run get_candidate list_for_schedule_run get_baseline uuid4 create_pending
      append_audit append_approval_activity pause_agent_run_for_approval
  request_approval enabled before = do
    require enabled approval_not_granted
    found ← read before (get_run c.schedule_run_id c.site_id)
    with_found enabled before found
