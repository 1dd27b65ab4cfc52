-- ===== src/Approvals/Moves.antt =====
-- The changes of `approval_request`: a pending binding is added, or an open one is closed.
use roster_ai.Base.{
  ℕ, ◌+◌, String, ◌≡◌, refl, sym, ◌∙◌, ap, Bool, false, Option, none, some, [], ◌∷◌, ◌++◌, inl, inr,
  Option-cases, arith, ◌==◌,
}
use roster_ai.Base.Table.{select_one, update}
use roster_ai.Contracts.JobLease.{Uuid, Instant}
use roster_ai.Contracts.Scheduling.{Candidate}
use roster_ai.Contracts.Approvals.{
  ApprovalState, consumed, rejected, is_pending, ApprovalBinding, ApprovalRequest, Signed,
  SiteBaseline, AuditEnvelope,
}
use roster_ai.Store.{
  World, assertion_error, post_write_approval_not_pending, baseline_concurrently_moved,
  approval_not_pending, stale_resource_version, approval_not_granted,
}
use roster_ai.Store.Tx.{Tx, Result, ok, raised, resume, ◌>>=◌}
use roster_ai.Repository.Rows.{uuid4}
use roster_ai.Approvals.Rows.{
  is_open, closed, consume, update_approval, promote, append_audit, get_pending_payload,
  mark_applied, request_clashes, create_pending, get,
}
use roster_ai.Approvals.Conversations.{append_approval_activity, resume_agent_run_for_approval}
use roster_ai.Approvals.Promote.{
  AgentApprovalPending, promote_baseline, continue_conversation, conclude, after_consumption,
}
use roster_ai.Approvals.Decide.{
  DecisionCommand, Decision, Current, terminate, revalidate, decide_checked, decide_binding,
  decide_approval, read_current, consumption,
}
use roster_ai.Approvals.Requests.{terminate-requests}
use roster_ai.Approvals.Steps.{
  Steps, steps_require, steps_read, steps_some, steps_value, steps_if, steps_bind,
}

-- An edit that ends a binding and keeps its name.
pub record IsClosing (f : ApprovalRequest → ApprovalRequest) : Type 0 where
  pub same_id : (r : ApprovalRequest) → (f r).binding.approval_id ≡ r.binding.approval_id
  pub same_site : (r : ApprovalRequest) → (f r).binding.site_id ≡ r.binding.site_id
  pub ended : (r : ApprovalRequest) → is_pending (f r).binding.state ≡ false
  pub version :
      (r : ApprovalRequest) → (f r).binding.resource_version ≡ r.binding.resource_version + 1

pub data ApprovalMoves (w w' : World) : Type 0 where
  same : w'.approval_request ≡ w.approval_request → ApprovalMoves w w'
  closes :
      (approval site : Uuid) (version : ℕ) (f : ApprovalRequest → ApprovalRequest)
      → IsClosing f
      → w'.approval_request ≡ update (is_open approval site version) f w.approval_request
      → ApprovalMoves w w'
  opens :
      (r : ApprovalRequest)
      → select_one (request_clashes r.binding) w.approval_request ≡ none
      → w'.approval_request ≡ w.approval_request ++ r ∷ []
      → ApprovalMoves w w'

-- Code that leaves `approval_request` alone.
abbrev pub Keeps : World → World → Type 0
Keeps w w' = w'.approval_request ≡ w.approval_request

pub kept : (w : World) → Keeps w w
kept w = refl

pub follows : (u v w : World) → Keeps u v → Keeps v w → Keeps u w
follows u v w p q = q ∙ p

pub bind {ℓ κ} :
    {A : Type ℓ} {B : Type κ} (m : Tx A) (f : A → Tx B)
    → Steps Keeps kept m
    → ((a : A) → Steps Keeps kept (f a))
    → Steps Keeps kept (m >>= f)
bind = steps_bind Keeps kept follows

pub uuid4-Keeps : Steps Keeps kept uuid4
unfolding uuid4
uuid4-Keeps w = refl

pub append_audit-Keeps : (e : AuditEnvelope) → Steps Keeps kept (append_audit e)
unfolding append_audit
append_audit-Keeps e w = ground arith

mark_applied-Keeps : (site version : Uuid) → Steps Keeps kept (mark_applied site version)
unfolding mark_applied
mark_applied-Keeps site version w = ground arith

promote-Keeps :
    (site version actor : Uuid) (now : Instant) (expected : Option ℕ)
    → Steps Keeps kept (promote site version actor now expected)
unfolding promote
promote-Keeps site version actor now none w = ground arith
promote-Keeps site version actor now (some n) w = refl

pub stays : (w : World) → ApprovalMoves w w
stays w = same refl

module _ (contract_digest : Signed → ℕ) (policy_digest : Bool → String)
    (validate_pending : ℕ → Option AgentApprovalPending) where
  continue-Keeps :
      (b used : ApprovalBinding) (actor request : Uuid) (now : Instant) (agent : Option Uuid)
      → Steps Keeps kept (continue_conversation validate_pending b used actor request now agent)
  unfolding append_approval_activity uuid4 get_pending_payload resume_agent_run_for_approval
  continue-Keeps b used actor request now none w = ground arith
  continue-Keeps b used actor request now (some agent) w = ground arith

  conclude-Keeps :
      (b used : ApprovalBinding) (moved : SiteBaseline) (actor request : Uuid) (now : Instant)
      → Steps Keeps kept (conclude validate_pending b used moved actor request now)
  conclude-Keeps b used moved actor request now =
      bind uuid4 _ (λ w. uuid4-Keeps w)
        λ audit.
          bind uuid4 _ (λ w. uuid4-Keeps w)
            λ attempt. bind (append_audit _) _ (append_audit-Keeps _) λ u.
              bind (continue_conversation validate_pending b used actor request now b.agent_run_id)
                _ (continue-Keeps b used actor request now b.agent_run_id)
                λ resume.
                  steps_value Keeps kept (mark_applied b.site_id b.candidate_schedule_version_id)
                    (λ _. record { binding = used; baseline = moved; resume = resume })
                    (mark_applied-Keeps b.site_id b.candidate_schedule_version_id)

  -- What follows the consumption.
  consumed-Keeps :
      (b : ApprovalBinding) (actor request : Uuid) (now : Instant) (row : Option ApprovalBinding)
      → Steps Keeps kept (after_consumption validate_pending b actor request now row)
  consumed-Keeps b actor request now row =
      steps_some Keeps kept row post_write_approval_not_pending _ λ used.
        bind
          (promote b.site_id b.candidate_schedule_version_id actor now b.baseline_resource_version)
          _
          (promote-Keeps b.site_id b.candidate_schedule_version_id actor now
            b.baseline_resource_version)
          λ moved.
            steps_some Keeps kept moved baseline_concurrently_moved _
              λ m. conclude-Keeps b used m actor request now

  pub consumed_writes :
      (b : ApprovalBinding) (actor request : Uuid) (now : Instant) (w : World)
      → ((consume b.approval_id b.site_id actor now b.resource_version
            >>= after_consumption validate_pending b actor request now)
          w).1.approval_request
        ≡ update
            (is_open b.approval_id b.site_id b.resource_version)
            (closed consumed actor now (some now))
            w.approval_request
  unfolding consume update_approval
  consumed_writes b actor request now w =
      let row = (consume b.approval_id b.site_id actor now b.resource_version w) in
      consumed-Keeps b actor request now _ row.1

  promote_baseline-Moves :
      (b : ApprovalBinding) (candidate : Option Candidate) (actor request : Uuid) (now : Instant)
      → Steps ApprovalMoves stays (promote_baseline validate_pending b candidate actor request now)
  unfolding promote_baseline
  promote_baseline-Moves b candidate actor request now =
      steps_require ApprovalMoves stays (is_pending b.state) assertion_error _ (
        steps_some ApprovalMoves stays candidate assertion_error _ λ c w.
          closes b.approval_id b.site_id b.resource_version (closed consumed actor now (some now))
            (record {
              same_id = λ r. refl;
              same_site = λ r. refl;
              ended = λ r. refl;
              version = λ r. refl;
            })
            (consumed_writes b actor request now w))

  module _ (command : DecisionCommand) (now : Instant) where
    terminate-Moves :
        (b : ApprovalBinding) (outcome : ApprovalState)
        → is_pending outcome ≡ false
        → Steps ApprovalMoves stays
            (terminate contract_digest policy_digest validate_pending command now b outcome)
    terminate-Moves b outcome ended w =
        closes b.approval_id command.site_id b.resource_version
          (λ r. closed outcome command.actor_id now r.binding.consumed_at r)
          (record {
            same_id = λ r. refl;
            same_site = λ r. refl;
            ended = λ r. ended;
            version = λ r. refl;
          })
          (terminate-requests contract_digest policy_digest validate_pending command now b outcome
            w)

    revalidate_ended :
        (enabled : Bool) (b : ApprovalBinding) (c : Current) {outcome : ApprovalState}
        → revalidate contract_digest policy_digest enabled now b c ≡ some outcome
        → is_pending outcome ≡ false
    revalidate_ended enabled b c h = ground arith

    checked-Moves :
        (b : ApprovalBinding) (candidate : Option Candidate) (o : Option ApprovalState)
        → ((outcome : ApprovalState) → o ≡ some outcome → is_pending outcome ≡ false)
        → Steps ApprovalMoves stays (
            decide_checked contract_digest policy_digest validate_pending command now b candidate o)
    checked-Moves b candidate none k =
        steps_if ApprovalMoves stays command.approve _ _
          (steps_value ApprovalMoves stays
            (promote_baseline validate_pending b candidate command.actor_id command.request_id now)
            (consumption contract_digest policy_digest validate_pending command now)
            (promote_baseline-Moves b candidate command.actor_id command.request_id now))
          (terminate-Moves b rejected refl)
    checked-Moves b candidate (some outcome) k = terminate-Moves b outcome (k outcome refl)

    binding-Moves :
        (enabled : Bool) (before : World) (o : Option ApprovalBinding)
        → Steps ApprovalMoves stays (
            decide_binding contract_digest policy_digest validate_pending command now enabled before
              o)
    binding-Moves enabled before none = λ w. stays w
    binding-Moves enabled before (some b) =
        steps_require ApprovalMoves stays (is_pending b.state) approval_not_pending _ (
          steps_require ApprovalMoves stays
            (b.resource_version == command.expected_resource_version) stale_resource_version _
            (steps_read ApprovalMoves stays before (read_current contract_digest policy_digest b) _
              λ c.
                checked-Moves b c.candidate
                  (revalidate contract_digest policy_digest enabled now b c)
                  (λ outcome h. revalidate_ended enabled b c h)))

    pub decide_approval-Moves :
        (enabled : Bool) (before : World)
        → Steps ApprovalMoves stays (
            decide_approval contract_digest policy_digest validate_pending command now enabled
              before)
    unfolding decide_approval
    decide_approval-Moves enabled before =
        steps_require ApprovalMoves stays enabled approval_not_granted _ (
          steps_read ApprovalMoves stays {B = Decision} before
            (get command.approval_id command.site_id)
            (decide_binding contract_digest policy_digest validate_pending command now enabled
              before)
            (binding-Moves enabled before))

-- What follows a change and leaves `approval_request` alone.
pub ApprovalMoves-Keeps : (u v w : World) → ApprovalMoves u v → Keeps v w → ApprovalMoves u w
ApprovalMoves-Keeps u v w (same e) k = same (k ∙ e)
ApprovalMoves-Keeps u v w (closes approval site version f c e) k =
    closes approval site version f c (k ∙ e)
ApprovalMoves-Keeps u v w (opens r fresh e) k = opens r fresh (k ∙ e)

pub Keeps-ApprovalMoves : (u v w : World) → Keeps u v → ApprovalMoves v w → ApprovalMoves u w
Keeps-ApprovalMoves u v w k (same e) = same (e ∙ k)
Keeps-ApprovalMoves u v w k (closes approval site version f c e) =
    closes approval site version f c (e ∙ ap (update (is_open approval site version) f) k)
Keeps-ApprovalMoves u v w k (opens r fresh e) =
    opens r (ap (select_one (request_clashes r.binding)) (sym k) ∙ fresh)
      (e ∙ ap (λ rs. rs ++ r ∷ []) k)

module _ {ℓ κ} {A : Type ℓ} {B : Type κ} where
  after_resumed :
      (r : Result A) (f : A → Tx B) (u v : World)
      → ApprovalMoves u v
      → ((a : A) → Steps Keeps kept (f a))
      → ApprovalMoves u (resume r f v).1
  after_resumed (ok a) f u v j k = ApprovalMoves-Keeps u v (f a v).1 j (k a v)
  after_resumed (raised e) f u v j k = j

  -- The one change, before code that leaves `approval_request` alone.
  pub bind_after :
      (m : Tx A) (f : A → Tx B)
      → Steps ApprovalMoves stays m
      → ((a : A) → Steps Keeps kept (f a))
      → Steps ApprovalMoves stays (m >>= f)
  bind_after m f j k w = after_resumed (m w).0 f w (m w).1 (j w) k

  before_resumed :
      (r : Result A) (f : A → Tx B) (u v : World)
      → Keeps u v
      → ((a : A) → Steps ApprovalMoves stays (f a))
      → ApprovalMoves u (resume r f v).1
  before_resumed (ok a) f u v j k = Keeps-ApprovalMoves u v (f a v).1 j (k a v)
  before_resumed (raised e) f u v j k = same j

  -- The one change, after code that leaves `approval_request` alone.
  pub bind_before :
      (m : Tx A) (f : A → Tx B)
      → Steps Keeps kept m
      → ((a : A) → Steps ApprovalMoves stays (f a))
      → Steps ApprovalMoves stays (m >>= f)
  bind_before m f j k w = before_resumed (m w).0 f w (m w).1 (j w) k

pub create_pending-Moves :
    (b : ApprovalBinding) (payload : Option ℕ)
    → Steps ApprovalMoves stays (create_pending b payload)
unfolding create_pending
create_pending-Moves b payload w =
    elim (Option-cases (select_one (request_clashes b) w.approval_request)) [
      | inl e ↦ opens (record { binding = b; pending_payload = payload }) e (ground (arith, e))
      | inr (r, e) ↦ same (ground (arith, e))
    ]
