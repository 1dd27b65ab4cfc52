-- ===== src/Approvals/Promoted.antt =====
-- A decision that consumes its binding promotes the binding's candidate, as it was approved.
use mathlib.Core.Option
use roster_ai.Base.{
  ℕ, String, ◌≡◌, refl, sym, ◌∙◌, ap, Bool, true, false, ◌&&◌, Option, none, some, [], ◌∷◌, ◌++◌,
  inl, inr, Option-cases, arith, if◌then◌else◌, ◌==◌, ==_iff, is_some, str_eq, eq_iff,
}
use roster_ai.Base.Table.{
  select_one, select_one_holds, select_one-update, select_one-append_none, update,
}
use roster_ai.Base.Unique.{UniqueBy, select_by_key}
use roster_ai.Contracts.JobLease.{Uuid, Instant}
use roster_ai.Contracts.Scheduling.{Candidate}
use roster_ai.Contracts.Approvals.{
  ApprovalBinding, ApprovalRequest, SiteBaseline, Signed, expired, stale, is_pending, overdue,
  AuditEnvelope, consequence,
}
use roster_ai.Store.{
  World, Fault, assertion_error, post_write_approval_not_pending, baseline_concurrently_moved,
}
use roster_ai.Store.Tx.{Tx, Result, ok, ◌>>=◌, >>=-eq-ok, require->>-eq-ok, Tx-eq-ok}
use roster_ai.Repository.Rows.{uuid4, run_row}
use roster_ai.Approvals.Rows.{
  is_baseline, is_baseline_at, moved_baseline, first_baseline, promote, append_audit,
  get_pending_payload, mark_applied, is_open, consume, update_approval, get_candidate, is_member,
}
use roster_ai.Approvals.Conversations.{append_approval_activity, resume_agent_run_for_approval}
use roster_ai.Approvals.Promote.{
  AgentApprovalPending, Promotion, require_some, promote_baseline, continue_conversation, conclude,
  after_consumption,
}
use roster_ai.Approvals.Decide.{
  Current, revalidate, is_valid, is_feasible, uuid_eq, parameter_hash, valid_candidate,
}
use roster_ai.Store.Tx.{raised_is_no_value}
use roster_ai.Approvals.Steps.{Steps, steps_bind, steps_value}

-- Code that leaves `site_baseline` alone.
abbrev pub Keeps : World → World → Type 0
Keeps w w' = w'.site_baseline ≡ w.site_baseline

pub kept : (w : World) → Keeps w w
kept w = refl

bind {ℓ κ} :
    {A : Type ℓ} {B : Type κ} (m : Tx A) (f : A → Tx B)
    → Steps Keeps kept m
    → ((a : A) → Steps Keeps kept (f a))
    → Steps Keeps kept (m >>= f)
bind = steps_bind Keeps kept (λ u v w p q. q ∙ p)

uuid4-Keeps : Steps Keeps kept uuid4
unfolding uuid4
uuid4-Keeps w = refl

append_audit-Keeps : (e : AuditEnvelope) → Steps Keeps kept (append_audit e)
unfolding append_audit
append_audit-Keeps e w = ground arith

mark_applied-Keeps : (site version : Uuid) → Steps Keeps kept (mark_applied site version)
unfolding mark_applied
mark_applied-Keeps site version w = ground arith

pub require_some-eq-ok {ℓ κ} :
    {A : Type ℓ} {B : Type κ} (o : Option A) (e : Fault) (f : A → Tx B) (w : World) {b : B}
    {w' : World}
    → (require_some o e >>= f) w ≡ (ok b, w')
    → (a : A) × (o ≡ some a) × (f a w ≡ (ok b, w'))
require_some-eq-ok none e f w h = absurd (raised_is_no_value h)
require_some-eq-ok (some a) e f w h = (a, refl, h)

-- The baseline of a site, before and after a promotion at a version.
pub record MovesBaseline (site version : Uuid) (expected : Option ℕ) (w w' : World) : Type 0 where
  pub was :
      Option.map
        (λ (s : SiteBaseline). s.resource_version)
        (select_one (is_baseline site) w.site_baseline)
      ≡ expected
  pub row : SiteBaseline
  pub found : select_one (is_baseline site) w'.site_baseline ≡ some row
  pub promoted : row.schedule_version_id ≡ version

pub promote-MovesBaseline :
    (site version actor : Uuid) (now : Instant) (expected : Option ℕ) (w : World) {s : SiteBaseline}
    {w' : World}
    → UniqueBy (λ (b : SiteBaseline). b.site_id) w.site_baseline
    → promote site version actor now expected w ≡ (ok (some s), w')
    → MovesBaseline site version expected w w'
unfolding promote
promote-MovesBaseline site version actor now none w {s} {w'} u h =
    elim (Option-cases (select_one (is_baseline site) w.site_baseline)) [
      | inl e ↦
          let b = first_baseline site version actor now in
          let after : w'.site_baseline ≡ w.site_baseline ++ b ∷ [] = ground (arith, e) in
          record {
            was = rw e refl;
            row = b;
            found =
                ap (select_one (is_baseline site)) after
                ∙ select_one-append_none (is_baseline site) w.site_baseline b e
                ∙ rw ((==_iff site site).1 refl) refl;
            promoted = refl;
          }
      | inr (b, e) ↦ absurd (ground (arith, e))
    ]
promote-MovesBaseline site version actor now (some n) w {s} {w'} u h =
    elim (Option-cases (select_one (is_baseline_at site n) w.site_baseline)) [
      | inl e ↦ absurd (ground (arith, e))
      | inr (b, e) ↦
          let p = is_baseline_at site n in
          let f = moved_baseline version actor now in
          let after : w'.site_baseline ≡ update p f w.site_baseline = ground arith in
          let fits = select_one_holds p w.site_baseline e in
          let found =
            select_by_key (λ x. x.site_id) site p w.site_baseline u (λ x t. ground arith) e in
          let at : b.resource_version ≡ n = ground (arith, fits) in
          record {
            was = ap (Option.map (λ x. x.resource_version)) found ∙ ap some at;
            row = f b;
            found =
                ap (select_one (is_baseline site)) after
                ∙ select_one-update (is_baseline site) p f w.site_baseline (λ x. refl)
                ∙ ap (Option.map (λ x. if p x then f x else x)) found
                ∙ rw fits refl;
            promoted = refl;
          }
    ]

module _ (validate_pending : ℕ → Option AgentApprovalPending) where
  continue-Keeps :
      (b used : ApprovalBinding) (actor request : Uuid) (now : Instant) (agent : Option Uuid)
      → Steps Keeps kept (continue_conversation validate_pending b used actor request now agent)
  unfolding append_approval_activity uuid4 get_pending_payload resume_agent_run_for_approval
  continue-Keeps b used actor request now none w = ground arith
  continue-Keeps b used actor request now (some agent) w = ground arith

  pub conclude-Keeps :
      (b used : ApprovalBinding) (moved : SiteBaseline) (actor request : Uuid) (now : Instant)
      → Steps Keeps kept (conclude validate_pending b used moved actor request now)
  conclude-Keeps b used moved actor request now =
      bind uuid4 _ (λ w. uuid4-Keeps w)
        λ audit.
          bind uuid4 _ (λ w. uuid4-Keeps w)
            λ attempt. bind (append_audit _) _ (append_audit-Keeps _) λ u.
              bind (continue_conversation validate_pending b used actor request now b.agent_run_id)
                _ (continue-Keeps b used actor request now b.agent_run_id)
                λ resume.
                  steps_value Keeps kept (mark_applied b.site_id b.candidate_schedule_version_id)
                    (λ _. record { binding = used; baseline = moved; resume = resume })
                    (mark_applied-Keeps b.site_id b.candidate_schedule_version_id)

  -- What a promotion that returned found and left.
  pub record IsPromoted (b : ApprovalBinding) (w w' : World) : Type 0 where
    pub open_row : ApprovalRequest
    pub still_open :
        select_one (is_open b.approval_id b.site_id b.resource_version) w.approval_request
        ≡ some open_row
    pub baseline :
        MovesBaseline b.site_id b.candidate_schedule_version_id b.baseline_resource_version w w'

  after-MovesBaseline :
      (b : ApprovalBinding) (actor request : Uuid) (now : Instant) (closed : Option ApprovalBinding)
      (w : World) {p : Promotion} {w' : World}
      → UniqueBy (λ (s : SiteBaseline). s.site_id) w.site_baseline
      → after_consumption validate_pending b actor request now closed w ≡ (ok p, w')
      → (used : ApprovalBinding) × (closed ≡ some used)
        × MovesBaseline b.site_id b.candidate_schedule_version_id b.baseline_resource_version w w'
  after-MovesBaseline b actor request now closed w {p} {w'} u h =
      let used = require_some-eq-ok closed post_write_approval_not_pending _ w h in
      let m =
        promote b.site_id b.candidate_schedule_version_id actor now b.baseline_resource_version in
      let row = >>=-eq-ok m _ w used.2 in
      let v = (m w).1 in
      let moved = require_some-eq-ok row.0 baseline_concurrently_moved _ v row.2 in
      let done =
        promote-MovesBaseline b.site_id b.candidate_schedule_version_id actor now
          b.baseline_resource_version w u (Tx-eq-ok (row.1 ∙ ap ok moved.1) refl) in
      let last : (conclude validate_pending b used.0 moved.0 actor request now v).1 ≡ w' =
        ap (λ (q : Result Promotion × World). q.1) moved.2 in
      (
        used.0,
        used.1,
        record {
          was = done.was;
          row = done.row;
          found =
              ap (λ (x : World). select_one (is_baseline b.site_id) x.site_baseline) (sym last)
              ∙ ap (select_one (is_baseline b.site_id))
                  (conclude-Keeps b used.0 moved.0 actor request now v)
              ∙ done.found;
          promoted = done.promoted;
        },
      )

  pub promote_baseline-IsPromoted :
      (b : ApprovalBinding) (candidate : Option Candidate) (actor request : Uuid) (now : Instant)
      (w : World) {p : Promotion} {w' : World}
      → UniqueBy (λ (s : SiteBaseline). s.site_id) w.site_baseline
      → promote_baseline validate_pending b candidate actor request now w ≡ (ok p, w')
      → IsPromoted b w w'
  unfolding promote_baseline consume update_approval
  promote_baseline-IsPromoted b candidate actor request now w {p} {w'} u h =
      let pending = require->>-eq-ok (is_pending b.state) assertion_error _ w h in
      let target = require_some-eq-ok candidate assertion_error _ w pending.1 in
      let closing = consume b.approval_id b.site_id actor now b.resource_version in
      let first =
        >>=-eq-ok closing (after_consumption validate_pending b actor request now) w target.2 in
      let after = after-MovesBaseline b actor request now first.0 (closing w).1 u first.2 in
      let used : (closing w).0 ≡ ok (some after.0) = first.1 ∙ ap ok after.1 in
      elim (Option-cases
        (select_one (is_open b.approval_id b.site_id b.resource_version) w.approval_request)) [
          | inl e ↦ absurd (ground (arith, e, used))
          | inr (r, e) ↦ record {
            open_row = r;
            still_open = e;
            baseline = record {
              was = after.2.was;
              row = after.2.row;
              found = after.2.found;
              promoted = after.2.promoted;
            };
          }
        ]

-- What an approval stands on: what the reads of the decision saw was what the binding pins.
pub record IsCurrent (contract_digest : Signed → ℕ) (policy_digest : Bool → String)
    (b : ApprovalBinding) (now : Instant) (before : World) : Type 0 where
  pub in_time : overdue now b.expires_at ≡ false
  pub candidate : Candidate
  pub candidate_found : (get_candidate b.schedule_run_id b.site_id before).0 ≡ ok (some candidate)
  pub candidate_is : candidate.schedule_version_id ≡ b.candidate_schedule_version_id
  pub is_solution : is_feasible candidate.feasible_solver_status ≡ true
  pub active : is_member b.initiated_by_actor_id b.site_id before ≡ true
  pub baseline :
      Option.map
        (λ (s : SiteBaseline). s.schedule_version_id)
        (select_one (is_baseline b.site_id) before.site_baseline)
      ≡ b.baseline_schedule_version
  pub parameter :
      parameter_hash contract_digest policy_digest b (run_row b.schedule_run_id b.site_id before)
      ≡ b.parameter_hash
  pub consequence_hash : contract_digest (consequence b.consequence_summary) ≡ b.consequence_hash
  pub policy : policy_digest true ≡ b.policy_version

uuid_eq-same : (a b : Option ℕ) → uuid_eq a b ≡ true → a ≡ b
uuid_eq-same none none h = refl
uuid_eq-same (some a) (some b) h = ap some ((==_iff a b).0 h)
uuid_eq-same none (some b) h = cc
uuid_eq-same (some a) none h = cc

both : (p q : Bool) → (p && q) ≡ true → (p ≡ true) × (q ≡ true)
both true q h = (refl, h)
both false q h = cc

current_cases :
    (late valid : Bool)
    → (if late then some expired else if valid then none else some stale) ≡ none
    → (late ≡ false) × (valid ≡ true)
current_cases true valid h = cc
current_cases false true h = (refl, refl)
current_cases false false h = cc

candidate_cases :
    (contract_digest : Signed → ℕ) (policy_digest : Bool → String) (b : ApprovalBinding)
    (o : Option Candidate)
    → valid_candidate contract_digest policy_digest b o ≡ true
    → (c : Candidate) × (o ≡ some c)
      × (c.schedule_version_id ≡ b.candidate_schedule_version_id)
      × (is_feasible c.feasible_solver_status ≡ true)
candidate_cases contract_digest policy_digest b none h = cc
candidate_cases contract_digest policy_digest b (some c) h =
    let parts =
      both (c.schedule_version_id == b.candidate_schedule_version_id)
        (is_feasible c.feasible_solver_status) h in
    (c, refl, (==_iff c.schedule_version_id b.candidate_schedule_version_id).0 parts.0, parts.1)

module _ (contract_digest : Signed → ℕ) (policy_digest : Bool → String) (b : ApprovalBinding)
    (now : Instant) (before : World) where
  abbrev pub what_is : Current
  what_is = record {
    candidate =
        Option.map (λ v. v.payload)
          (select_one (λ v. v.schedule_run_id == b.schedule_run_id && v.site_id == b.site_id)
            before.schedule_version);
    run = run_row b.schedule_run_id b.site_id before;
    baseline = select_one (is_baseline b.site_id) before.site_baseline;
    active_initiator = is_member b.initiated_by_actor_id b.site_id before;
  }

  pub valid-IsCurrent :
      revalidate contract_digest policy_digest true now b what_is ≡ none
      → IsCurrent contract_digest policy_digest b now before
  unfolding get_candidate
  valid-IsCurrent h =
      let c = what_is in
      let times =
        current_cases (overdue now b.expires_at) (is_valid contract_digest policy_digest true b c)
          h in
      let v1 = both _ (str_eq (policy_digest true) b.policy_version) times.1 in
      let v2 =
        both _ (contract_digest (consequence b.consequence_summary) == b.consequence_hash) v1.0 in
      let v3 =
        both _ (parameter_hash contract_digest policy_digest b c.run == b.parameter_hash) v2.0 in
      let v4 =
        both _
          (uuid_eq (Option.map (λ s. s.resource_version) c.baseline) b.baseline_resource_version)
          v3.0 in
      let v5 =
        both _
          (uuid_eq (Option.map (λ s. s.schedule_version_id) c.baseline) b.baseline_schedule_version)
          v4.0 in
      let v6 = both _ (is_some c.run) v5.0 in
      let v7 =
        both c.active_initiator (valid_candidate contract_digest policy_digest b c.candidate)
          v6.0 in
      let found = candidate_cases contract_digest policy_digest b c.candidate v7.1 in
      record {
        in_time = times.0;
        candidate = found.0;
        candidate_found = ap ok found.1;
        candidate_is = found.2;
        is_solution = found.3;
        active = v7.0;
        baseline = uuid_eq-same _ _ v5.1;
        parameter =
            (==_iff (parameter_hash contract_digest policy_digest b c.run) b.parameter_hash).0 v3.1;
        consequence_hash =
            (==_iff (contract_digest (consequence b.consequence_summary)) b.consequence_hash).0
              v2.1;
        policy = (eq_iff (policy_digest true) b.policy_version).0 v1.1;
      }
