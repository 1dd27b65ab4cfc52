-- ===== src/Approvals/Approved.antt =====
-- A decision that consumes its binding.
use roster_ai.Base.{
  ℕ, String, ◌≡◌, refl, sym, ◌∙◌, ap, Bool, true, false, Option, none, some, arith, if◌then◌else◌,
  ◌==◌, ==_iff,
}
use roster_ai.Base.Unique.{UniqueBy}
use roster_ai.Contracts.JobLease.{Instant}
use roster_ai.Contracts.Scheduling.{Candidate}
use roster_ai.Contracts.Approvals.{
  ApprovalState, ApprovalBinding, SiteBaseline, Signed, consumed, rejected, is_pending,
}
use roster_ai.Store.{World, approval_not_pending, stale_resource_version}
use roster_ai.Store.Tx.{Result, ok, pure, ◌>>=◌, >>=-eq-ok, require->>-eq-ok, Tx-eq-ok}
use roster_ai.Repository.Rows.{uuid4}
use roster_ai.Approvals.Rows.{
  binding_of, update_approval, terminalize, get, append_audit, get_candidate, get_run, get_baseline,
  has_active_membership,
}
use roster_ai.Approvals.Conversations.{append_approval_activity, cancel_agent_run_for_approval}
use roster_ai.Approvals.Promote.{AgentApprovalPending, promote_baseline}
use roster_ai.Approvals.Decide.{
  DecisionCommand, Decision, Current, terminate, revalidate, read_current, decide_checked,
  decide_binding, decide_approval, consumption,
}
use roster_ai.Approvals.Promoted.{
  IsCurrent, IsPromoted, what_is, valid-IsCurrent, promote_baseline-IsPromoted,
}
use roster_ai.Store.Tx.{raised_is_no_value}

-- What a decision that consumed its binding found and left.
pub record IsApproved (contract_digest : Signed → ℕ) (policy_digest : Bool → String)
    (validate_pending : ℕ → Option AgentApprovalPending) (command : DecisionCommand) (now : Instant)
    (before w w' : World) : Type 0 where
  pub binding : ApprovalBinding
  pub found : binding_of command.approval_id command.site_id before ≡ some binding
  pub pending_then : is_pending binding.state ≡ true
  pub at_version : binding.resource_version ≡ command.expected_resource_version
  pub approved : command.approve ≡ true
  pub current : IsCurrent contract_digest policy_digest binding now before
  pub promoted : IsPromoted validate_pending binding w w'

module _ (contract_digest : Signed → ℕ) (policy_digest : Bool → String)
    (validate_pending : ℕ → Option AgentApprovalPending) (command : DecisionCommand)
    (now : Instant) where
  terminate-outcome :
      (b : ApprovalBinding) (outcome : ApprovalState) (w : World) {d : Decision} {w' : World}
      → terminate contract_digest policy_digest validate_pending command now b outcome w
        ≡ (ok d, w')
      → d.outcome ≡ outcome
  unfolding terminate terminalize update_approval uuid4 append_audit append_approval_activity
      cancel_agent_run_for_approval
  terminate-outcome b outcome w h = ground arith

  revalidate_late :
      (b : ApprovalBinding) (c : Current) (outcome : ApprovalState)
      → revalidate contract_digest policy_digest true now b c ≡ some outcome
      → outcome ≡ consumed
      → ⊥
  revalidate_late b c outcome h e = ground arith

  module _ (before w : World) {d : Decision} {w' : World} (is_consumed : d.outcome ≡ consumed)
      (unique : UniqueBy (λ (s : SiteBaseline). s.site_id) w.site_baseline) (b : ApprovalBinding)
      (found : binding_of command.approval_id command.site_id before ≡ some b)
      (pending_then : is_pending b.state ≡ true)
      (at_version : b.resource_version ≡ command.expected_resource_version) where
    valid-IsApproved :
        (candidate : Option Candidate) (approve : Bool)
        → command.approve ≡ approve
        → IsCurrent contract_digest policy_digest b now before
        → (if approve
              then (promote_baseline validate_pending b candidate command.actor_id
                    command.request_id now
                  >>= λ p.
                      pure
                        (consumption contract_digest policy_digest validate_pending command now p))
              else terminate contract_digest policy_digest validate_pending command now b rejected)
            w
          ≡ (ok d, w')
        → IsApproved contract_digest policy_digest validate_pending command now before w w'
    valid-IsApproved candidate true approved current h =
        let m =
          promote_baseline validate_pending b candidate command.actor_id command.request_id now in
        let first = >>=-eq-ok m _ w h in
        let last : (m w).1 ≡ w' = ap (λ (q : Result Decision × World). q.1) first.2 in
        record {
          binding = b;
          found = found;
          pending_then = pending_then;
          at_version = at_version;
          approved = approved;
          current = current;
          promoted =
              promote_baseline-IsPromoted validate_pending b candidate command.actor_id
                command.request_id now w unique (Tx-eq-ok first.1 last);
        }
    valid-IsApproved candidate false approved current h =
        let e = terminate-outcome b rejected w h in cc (e, is_consumed)

    checked-IsApproved :
        (candidate : Option Candidate) (o : Option ApprovalState)
        → revalidate contract_digest policy_digest true now b
            (what_is contract_digest policy_digest b now before)
          ≡ o
        → decide_checked contract_digest policy_digest validate_pending command now b candidate o w
          ≡ (ok d, w')
        → IsApproved contract_digest policy_digest validate_pending command now before w w'
    checked-IsApproved candidate none e h =
        valid-IsApproved candidate command.approve refl
          (valid-IsCurrent contract_digest policy_digest b now before e) h
    checked-IsApproved candidate (some outcome) e h =
        let told = terminate-outcome b outcome w h in
        absurd (
          revalidate_late b (what_is contract_digest policy_digest b now before) outcome e
            (sym told ∙ is_consumed))

  binding-IsApproved :
      (before w : World) (o : Option ApprovalBinding) {d : Decision} {w' : World}
      → d.outcome ≡ consumed
      → UniqueBy (λ (s : SiteBaseline). s.site_id) w.site_baseline
      → binding_of command.approval_id command.site_id before ≡ o
      → decide_binding contract_digest policy_digest validate_pending command now true before o w
        ≡ (ok d, w')
      → IsApproved contract_digest policy_digest validate_pending command now before w w'
  unfolding read_current get_candidate get_run get_baseline has_active_membership
  binding-IsApproved before w none is_consumed unique found h = absurd (raised_is_no_value h)
  binding-IsApproved before w (some b) is_consumed unique found h =
      let open_then = require->>-eq-ok (is_pending b.state) approval_not_pending _ w h in
      let fresh =
        require->>-eq-ok (b.resource_version == command.expected_resource_version)
          stale_resource_version _ w open_then.1 in
      checked-IsApproved before w is_consumed unique b found open_then.0
        ((==_iff b.resource_version command.expected_resource_version).0 fresh.0)
        (what_is contract_digest policy_digest b now before).candidate
        (revalidate contract_digest policy_digest true now b
          (what_is contract_digest policy_digest b now before))
        refl fresh.1

-- A decision that ends with its binding consumed was an approval, under a policy that grants it,
-- of a binding that its reads saw pending at the expected version, in time and unchanged in
-- everything that it pins: the feasible candidate, the initiator's membership, the baseline, the
-- run's version in the signed parameters, the consequence and the policy. When it wrote, the
-- binding was still open, the site's baseline was at the pinned version, and the site's baseline
-- is now the bound candidate. Sites have one baseline row at most.
pub decide_approval-IsApproved :
    (contract_digest : Signed → ℕ) (policy_digest : Bool → String)
    (validate_pending : ℕ → Option AgentApprovalPending) (command : DecisionCommand) (now : Instant)
    (enabled : Bool) (before w : World) {d : Decision} {w' : World}
    → decide_approval contract_digest policy_digest validate_pending command now enabled before w
      ≡ (ok d, w')
    → d.outcome ≡ consumed
    → UniqueBy (λ (s : SiteBaseline). s.site_id) w.site_baseline
    → (enabled ≡ true)
      × IsApproved contract_digest policy_digest validate_pending command now before w w'
unfolding decide_approval get
decide_approval-IsApproved contract_digest policy_digest validate_pending command now false before w
      h is_consumed unique =
    absurd (raised_is_no_value h)
decide_approval-IsApproved contract_digest policy_digest validate_pending command now true before w
      h is_consumed unique =
    (
      refl,
      binding-IsApproved contract_digest policy_digest validate_pending command now before w
          (binding_of command.approval_id command.site_id before) is_consumed unique refl h,
    )
