-- ===== src/Approvals/Unreadable.antt =====
-- A promotion whose stored payload cannot be read, and what the route does with it.
use mathlib.Core.Option
use roster_ai.Base.{
  ℕ, String, ◌≡◌, refl, sym, ◌∙◌, ap, Bool, true, false, Option, none, some, inl, inr, Option-cases,
  arith, if◌then◌else◌, ◌==◌, ◌⊎◌, suc,
}
use roster_ai.Base.Table.{select_one, update}
use roster_ai.Base.Unique.{UniqueBy}
use roster_ai.Contracts.JobLease.{Uuid, Instant}
use roster_ai.Contracts.Scheduling.{Candidate}
use roster_ai.Contracts.Approvals.{
  ApprovalState, consumed, rejected, is_pending, ApprovalBinding, SiteBaseline, Signed,
  AuditEnvelope,
}
use roster_ai.Store.{
  World, Fault, Body, assertion_error, post_write_approval_not_pending, baseline_concurrently_moved,
  approval_payload_unreadable, approval_not_pending, stale_resource_version, approval_not_granted,
}
use roster_ai.Store as Ops
use roster_ai.Store.Tx.{
  Tx, Result, ok, raised, pure, require, resume, transaction, ◌>>=◌, ◌>>◌, Tx-eq-ok,
}
use roster_ai.Repository.Rows.{uuid4}
use roster_ai.Repository.Idempotency.{get_idempotent_result, is_request}
use roster_ai.Approvals.Rows.{
  is_open, closed, consume, promote, update_approval, append_audit, get_pending_payload,
  mark_applied, terminalize, get_candidate, get_run, get_baseline, has_active_membership,
  binding_of, get, is_baseline, first_baseline,
}
use roster_ai.Approvals.Conversations.{
  append_approval_activity, resume_agent_run_for_approval, cancel_agent_run_for_approval,
}
use roster_ai.Approvals.Promote.{
  AgentApprovalPending, Promotion, require_some, promote_baseline, after_consumption, conclude,
  continue_conversation, decision_audit,
}
use roster_ai.Approvals.Decide.{
  DecisionCommand, Decision, terminate, read_current, decide_checked, decide_binding,
  decide_approval, consumption,
}
use roster_ai.Approvals.Route.{
  decide_command, decide_approval_route, refused, command as command_of,
}
use roster_ai.Approvals.Moves.{consumed_writes}
use roster_ai.Approvals.Promoted.{MovesBaseline, promote-MovesBaseline, conclude-Keeps}

module _ {ℓ κ} {A : Type ℓ} {B : Type κ} where
  resume-eq-raised :
      (r : Result A) (f : A → Tx B) (v : World) {e : Fault} {w' : World}
      → resume r f v ≡ (raised e, w')
      → (◌≡◌ {A = Result A × World} (r, v) (raised e, w'))
        ⊎ ((a : A) × (r ≡ ok a) × (f a v ≡ (raised e, w')))
  resume-eq-raised (ok a) f v h = inr (a, refl, h)
  resume-eq-raised (raised x) f v {e} {w'} h =
      let fault = ap (λ (p : Result B × World). p.0) h in
      let last = ap (λ (p : Result B × World). p.1) h in
      let same : x ≡ e = cc fault in inl (λ i. (raised (same i), last i))

  -- A block that raised did so in its first step, or after it.
  >>=-eq-raised :
      (m : Tx A) (f : A → Tx B) (w : World) {e : Fault} {w' : World}
      → (m >>= f) w ≡ (raised e, w')
      → (m w ≡ (raised e, w')) ⊎ ((a : A) × ((m w).0 ≡ ok a) × (f a (m w).1 ≡ (raised e, w')))
  >>=-eq-raised m f w h = resume-eq-raised (m w).0 f (m w).1 h

  require_some-eq-raised :
      (o : Option A) (e : Fault) (f : A → Tx B) (w : World) {x : Fault} {w' : World}
      → (require_some o e >>= f) w ≡ (raised x, w')
      → (e ≡ x) ⊎ ((a : A) × (o ≡ some a) × (f a w ≡ (raised x, w')))
  require_some-eq-raised none e f w {x} {w'} h =
      let fault = ap (λ (p : Result B × World). p.0) h in inl (cc fault)
  require_some-eq-raised (some a) e f w h = inr (a, refl, h)

require-eq-raised {κ} :
    {B : Type κ} (b : Bool) (e : Fault) (m : Tx B) (w : World) {x : Fault} {w' : World}
    → (require b e >> m) w ≡ (raised x, w')
    → (e ≡ x) ⊎ ((b ≡ true) × (m w ≡ (raised x, w')))
require-eq-raised true e m w h = inr (refl, h)
require-eq-raised {B = B} false e m w {x} {w'} h =
    let fault = ap (λ (p : Result B × World). p.0) h in inl (cc fault)

promote_returns :
    (site version actor : Uuid) (now : Instant) (expected : Option ℕ) (w : World)
    → (o : Option SiteBaseline) × ((promote site version actor now expected w).0 ≡ ok o)
unfolding promote
promote_returns site version actor now none w =
    elim (Option-cases (select_one (is_baseline site) w.site_baseline)) [
      | inl e ↦ (some (first_baseline site version actor now), rw e refl)
      | inr (b, e) ↦ (none, rw e refl)
    ]
promote_returns site version actor now (some n) w = (_, refl)

audit_fault :
    (e : AuditEnvelope) (w : World) {w' : World}
    → append_audit e w ≡ (raised approval_payload_unreadable, w')
    → ⊥
unfolding append_audit
audit_fault e w h = ground arith

audit_agents : (e : AuditEnvelope) (w : World) → (append_audit e w).1.agent_run ≡ w.agent_run
unfolding append_audit
audit_agents e w = ground arith

promote_agents :
    (site version actor : Uuid) (now : Instant) (expected : Option ℕ) (w : World)
    → (promote site version actor now expected w).1.agent_run ≡ w.agent_run
unfolding promote
promote_agents site version actor now none w = ground arith
promote_agents site version actor now (some n) w = refl

module _ (contract_digest : Signed → ℕ) (policy_digest : Bool → String)
    (validate_pending : ℕ → Option AgentApprovalPending) where
  continue_unreadable :
      (b used : ApprovalBinding) (actor request : Uuid) (now : Instant) (agent : Option Uuid)
      (w : World) {w' : World}
      → continue_conversation validate_pending b used actor request now agent w
        ≡ (raised approval_payload_unreadable, w')
      → w'.agent_run ≡ w.agent_run
  unfolding append_approval_activity uuid4 get_pending_payload resume_agent_run_for_approval
  continue_unreadable b used actor request now none w h = ground arith
  continue_unreadable b used actor request now (some agent) w h = ground arith

  conclude_unreadable :
      (b used : ApprovalBinding) (moved : SiteBaseline) (actor request : Uuid) (now : Instant)
      (w : World) {w' : World}
      → conclude validate_pending b used moved actor request now w
        ≡ (raised approval_payload_unreadable, w')
      → w'.agent_run ≡ w.agent_run
  unfolding uuid4 mark_applied
  conclude_unreadable b used moved actor request now w h =
      let drawn : World = record w { next_uuid = suc (suc w.next_uuid) } in
      let row =
        decision_audit b actor request consumed (some b.candidate_schedule_version_id) now
          w.next_uuid (suc w.next_uuid) in
      let resumes =
        continue_conversation validate_pending b used actor request now b.agent_run_id in
      elim (>>=-eq-raised (append_audit row) _ drawn h) [
        | inl e ↦ absurd (audit_fault row drawn e)
        | inr (u, _, rest) ↦
            let v = (append_audit row drawn).1 in
            elim (>>=-eq-raised resumes _ v rest) [
              | inl e ↦
                  continue_unreadable b used actor request now b.agent_run_id v e
                  ∙ audit_agents row drawn
              | inr (resume, _, e) ↦
                  let fault = ap (λ (q : Result Promotion × World). q.0) e in cc fault
            ]
      ]

  -- What a promotion that could not read its payload has written.
  pub record HasHalfPromoted (b : ApprovalBinding) (actor : Uuid) (now : Instant) (w w' : World)
      : Type 0 where
    pub consumed_row :
        w'.approval_request
        ≡ update
            (is_open b.approval_id b.site_id b.resource_version)
            (closed consumed actor now (some now))
            w.approval_request
    pub baseline :
        MovesBaseline b.site_id b.candidate_schedule_version_id b.baseline_resource_version w w'
    pub agents : w'.agent_run ≡ w.agent_run

  after_unreadable :
      (b : ApprovalBinding) (actor request : Uuid) (now : Instant) (row : Option ApprovalBinding)
      (w : World) {w' : World}
      → UniqueBy (λ (s : SiteBaseline). s.site_id) w.site_baseline
      → after_consumption validate_pending b actor request now row w
        ≡ (raised approval_payload_unreadable, w')
      → MovesBaseline b.site_id b.candidate_schedule_version_id b.baseline_resource_version w w'
        × (w'.agent_run ≡ w.agent_run)
  after_unreadable b actor request now row w {w'} u h =
      let m =
        promote b.site_id b.candidate_schedule_version_id actor now b.baseline_resource_version in
      let v = (m w).1 in
      elim (require_some-eq-raised row post_write_approval_not_pending _ w h) [
        | inl e ↦ cc e
        | inr (used, _, next) ↦ elim (>>=-eq-raised m _ w next) [
          | inl e ↦
              let returned =
                promote_returns b.site_id b.candidate_schedule_version_id actor now
                  b.baseline_resource_version w in
              let fault = ap (λ (q : Result (Option SiteBaseline) × World). q.0) e in
              cc (fault, returned.1)
          | inr (o, at, rest) ↦
              elim (require_some-eq-raised o baseline_concurrently_moved _ v rest) [
                | inl e ↦ cc e
                | inr (moved, some_row, last) ↦
                    let done =
                      promote-MovesBaseline b.site_id b.candidate_schedule_version_id actor now
                        b.baseline_resource_version w u (Tx-eq-ok (at ∙ ap ok some_row) refl) in
                    let end : (conclude validate_pending b used moved actor request now v).1 ≡ w' =
                      ap (λ (q : Result Promotion × World). q.1) last in
                    (
                      record {
                        was = done.was;
                        row = done.row;
                        found =
                            ap (λ (x : World). select_one (is_baseline b.site_id) x.site_baseline)
                              (sym end)
                            ∙ ap (select_one (is_baseline b.site_id))
                                (conclude-Keeps validate_pending b used moved actor request now v)
                            ∙ done.found;
                        promoted = done.promoted;
                      },
                      conclude_unreadable b used moved actor request now v last
                          ∙ promote_agents b.site_id b.candidate_schedule_version_id actor now
                              b.baseline_resource_version w,
                    )
              ]
        ]
      ]

  promote_baseline_unreadable :
      (b : ApprovalBinding) (candidate : Option Candidate) (actor request : Uuid) (now : Instant)
      (w : World) {w' : World}
      → UniqueBy (λ (s : SiteBaseline). s.site_id) w.site_baseline
      → promote_baseline validate_pending b candidate actor request now w
        ≡ (raised approval_payload_unreadable, w')
      → HasHalfPromoted b actor now w w'
  unfolding promote_baseline consume update_approval
  promote_baseline_unreadable b candidate actor request now w {w'} u h =
      let closing = consume b.approval_id b.site_id actor now b.resource_version in
      elim (require-eq-raised (is_pending b.state) assertion_error _ w h) [
        | inl e ↦ cc e
        | inr (_, checked) ↦ elim (require_some-eq-raised candidate assertion_error _ w checked) [
          | inl e ↦ cc e
          | inr (_, _, rest) ↦
              let row =
                Option.map (λ r. (closed consumed actor now (some now) r).binding)
                  (select_one (is_open b.approval_id b.site_id b.resource_version)
                    w.approval_request) in
              let after = after_unreadable b actor request now row (closing w).1 u rest in
              let last : ((closing >>= after_consumption validate_pending b actor request now) w).1
                  ≡ w' =
                ap (λ (q : Result Promotion × World). q.1) rest in
              record {
                consumed_row =
                    ap (λ (x : World). x.approval_request) (sym last)
                    ∙ consumed_writes contract_digest policy_digest validate_pending b actor request
                        now w;
                baseline = record {
                  was = after.0.was;
                  row = after.0.row;
                  found = after.0.found;
                  promoted = after.0.promoted;
                };
                agents = after.1;
              }
        ]
      ]

  module _ (command : DecisionCommand) (now : Instant) where
    terminate_fault :
        (b : ApprovalBinding) (outcome : ApprovalState) (w : World) {w' : World}
        → terminate contract_digest policy_digest validate_pending command now b outcome w
          ≡ (raised approval_payload_unreadable, w')
        → ⊥
    unfolding terminate terminalize update_approval uuid4 append_audit append_approval_activity
        cancel_agent_run_for_approval
    terminate_fault b outcome w h = ground arith

    valid_unreadable :
        (b : ApprovalBinding) (candidate : Option Candidate) (approve : Bool) (w : World)
        {w' : World}
        → UniqueBy (λ (s : SiteBaseline). s.site_id) w.site_baseline
        → (if approve
              then (promote_baseline validate_pending b candidate command.actor_id
                    command.request_id now
                  >>= λ p.
                      pure
                        (consumption contract_digest policy_digest validate_pending command now p))
              else terminate contract_digest policy_digest validate_pending command now b rejected)
            w
          ≡ (raised approval_payload_unreadable, w')
        → HasHalfPromoted b command.actor_id now w w'
    valid_unreadable b candidate true w u h =
        elim (>>=-eq-raised
          (promote_baseline validate_pending b candidate command.actor_id command.request_id now) _
          w h) [
            | inl e ↦
                promote_baseline_unreadable b candidate command.actor_id command.request_id now w u
                  e
            | inr (p, _, e) ↦ let fault = ap (λ (q : Result Decision × World). q.0) e in cc fault
          ]
    valid_unreadable b candidate false w u h = absurd (terminate_fault b rejected w h)

    checked_unreadable :
        (b : ApprovalBinding) (candidate : Option Candidate) (o : Option ApprovalState) (w : World)
        {w' : World}
        → UniqueBy (λ (s : SiteBaseline). s.site_id) w.site_baseline
        → decide_checked contract_digest policy_digest validate_pending command now b candidate o w
          ≡ (raised approval_payload_unreadable, w')
        → HasHalfPromoted b command.actor_id now w w'
    checked_unreadable b candidate none w u h = valid_unreadable b candidate command.approve w u h
    checked_unreadable b candidate (some outcome) w u h = absurd (terminate_fault b outcome w h)

    binding_unreadable :
        (enabled : Bool) (before w : World) (o : Option ApprovalBinding) {w' : World}
        → UniqueBy (λ (s : SiteBaseline). s.site_id) w.site_baseline
        → decide_binding contract_digest policy_digest validate_pending command now enabled before o
            w
          ≡ (raised approval_payload_unreadable, w')
        → (b : ApprovalBinding) × (o ≡ some b) × HasHalfPromoted b command.actor_id now w w'
    unfolding read_current get_candidate get_run get_baseline has_active_membership
    binding_unreadable enabled before w none u h =
        let fault = ap (λ (q : Result Decision × World). q.0) h in cc fault
    binding_unreadable enabled before w (some b) u h =
        elim (require-eq-raised (is_pending b.state) approval_not_pending _ w h) [
          | inl e ↦ cc e
          | inr (_, pending_then) ↦
              elim (require-eq-raised (b.resource_version == command.expected_resource_version)
                stale_resource_version _ w pending_then) [
                  | inl e ↦ cc e
                  | inr (_, rest) ↦ (b, refl, checked_unreadable b _ _ w u rest)
                ]
        ]

    decide_unreadable :
        (enabled : Bool) (before w : World) {w' : World}
        → UniqueBy (λ (s : SiteBaseline). s.site_id) w.site_baseline
        → decide_approval contract_digest policy_digest validate_pending command now enabled before
            w
          ≡ (raised approval_payload_unreadable, w')
        → (b : ApprovalBinding) × (binding_of command.approval_id command.site_id before ≡ some b)
          × HasHalfPromoted b command.actor_id now w w'
    unfolding decide_approval get
    decide_unreadable enabled before w u h =
        elim (require-eq-raised enabled approval_not_granted _ w h) [
          | inl e ↦ cc e
          | inr (_, rest) ↦
              binding_unreadable enabled before w
                (binding_of command.approval_id command.site_id before) u rest
        ]

-- A decision that fails on its stored payload is answered, and committed: the route catches the
-- error and returns, so that the consumed binding and the promoted baseline stay, and no agent
-- run has changed. The request has no reply stored under its key, policy grants the approval, and
-- sites have one baseline row at most.
pub decide_command-half_promotes :
    (body_digest : Body → ℕ) (contract_digest : Signed → ℕ) (policy_digest : Bool → String)
    (validate_pending : ℕ → Option AgentApprovalPending) (site actor approval : Uuid)
    (approve : Bool) (version : ℕ) (key : String) (now : Instant) (others : World → World)
    (w : World) {w' : World}
    → UniqueBy (λ (s : SiteBaseline). s.site_id) (others w).site_baseline
    → select_one (is_request site actor (Ops.decide_approval approval) key) w.command_idempotency
      ≡ none
    → decide_approval contract_digest policy_digest validate_pending
        (command_of body_digest contract_digest policy_digest validate_pending site actor approval
          approve version key now
          (others w).next_uuid)
        now
        true
        w
        (record (others w) { next_uuid = suc (others w).next_uuid })
      ≡ (raised approval_payload_unreadable, w')
    → (decide_command body_digest contract_digest policy_digest validate_pending site actor approval
          approve version key now true others w
        ≡ (ok (refused approval_payload_unreadable), w'))
      × ((b : ApprovalBinding) × (binding_of approval site w ≡ some b)
          × HasHalfPromoted contract_digest policy_digest validate_pending b actor now
              (others w)
              w')
unfolding decide_command decide_approval_route transaction get_idempotent_result uuid4
decide_command-half_promotes body_digest contract_digest policy_digest validate_pending site actor
      approval approve version key now others w {w'} u fresh h =
    let half =
      decide_unreadable contract_digest policy_digest validate_pending
        (command_of body_digest contract_digest policy_digest validate_pending site actor approval
          approve version key now (others w).next_uuid)
        now true w (record (others w) { next_uuid = suc (others w).next_uuid }) u h in
    (
      rw (fresh, h) refl,
      (
        half.0,
        half.1,
        record {
          consumed_row = half.2.consumed_row;
          baseline = record {
            was = half.2.baseline.was;
            row = half.2.baseline.row;
            found = half.2.baseline.found;
            promoted = half.2.baseline.promoted;
          };
          agents = half.2.agents;
        },
      ),
    )
