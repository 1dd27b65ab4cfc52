-- ===== src/Approvals/Route.antt =====
-- `decide_approval_route` of backend/api/routers/approvals.py, in the transaction of
-- `get_site_context`; the resumed turn, which runs after the commit, is left out.
use roster_ai.Base.{ℕ, String, Bool, true, false, not, Option, none, some, if◌then◌else◌, ◌==◌}
use roster_ai.Contracts.JobLease.{Uuid, Instant}
use roster_ai.Contracts.Approvals.{
  ApprovalState, ApprovalBinding, Signed, expired, stale, AuditEnvelope, denied,
  presented_approval_state,
}
use roster_ai.Store.{
  World, Fault, Body, decision_body, Payload, decision, IdempotentResult, approval_not_granted,
  approval_not_found, approval_not_pending, stale_resource_version, concurrent_decision,
  post_write_approval_not_pending, baseline_concurrently_moved, approval_payload_unreadable,
  idempotency_key_conflict,
}
use roster_ai.Store as Ops
use roster_ai.Store.Tx.{Tx, Result, ok, raised, pure, raise, transaction, ◌>>=◌, ◌>>◌}
use roster_ai.Repository.Rows.{uuid4}
use roster_ai.Repository.Idempotency.{get_idempotent_result, store_idempotent_result}
use roster_ai.Approvals.Rows.{get, append_audit}
use roster_ai.Approvals.Promote.{AgentApprovalPending}
use roster_ai.Approvals.Decide.{DecisionCommand, Decision, decide_approval}
use roster_ai.UseCases.Sessions.{read}

-- What the planner is told: the binding in its presented state, a problem by its error, or the
-- problem of a binding that was no longer current.
pub data Reply : Type 0 where
  shown : ApprovalBinding → ApprovalState → Reply
  refused : Fault → Reply
  no_longer_current : ApprovalState → Reply

-- isinstance(exc, DecideApprovalError)
abbrev pub is_decide_error : Fault → Bool
is_decide_error approval_not_granted = true
is_decide_error approval_not_found = true
is_decide_error approval_not_pending = true
is_decide_error stale_resource_version = true
is_decide_error concurrent_decision = true
is_decide_error post_write_approval_not_pending = true
is_decide_error baseline_concurrently_moved = true
is_decide_error approval_payload_unreadable = true
is_decide_error _ = false

-- isinstance(exc, (PostWriteApprovalNotPendingError, BaselineConcurrentlyMovedError))
abbrev pub must_escape : Fault → Bool
must_escape post_write_approval_not_pending = true
must_escape baseline_concurrently_moved = true
must_escape _ = false

-- exc.code in {"approval_not_pending", "stale_resource_version"}, of what does not escape
abbrev pub is_audited : Fault → Bool
is_audited approval_not_pending = true
is_audited concurrent_decision = true
is_audited stale_resource_version = true
is_audited _ = false

abbrev pub ended_late : ApprovalState → Bool
ended_late expired = true
ended_late stale = true
ended_late _ = false

module _ (body_digest : Body → ℕ) (contract_digest : Signed → ℕ) (policy_digest : Bool → String)
    (validate_pending : ℕ → Option AgentApprovalPending) (site actor approval : Uuid)
    (approve : Bool) (version : ℕ) (key : String) (now : Instant) where
  abbrev pub denial : ApprovalBinding → Uuid → Uuid → Uuid → AuditEnvelope
  denial b request audit attempt = record {
    audit_id = audit;
    attempt_id = attempt;
    request_id = request;
    site_id = site;
    initiated_by_actor_id = b.initiated_by_actor_id;
    decided_by_actor_id = some actor;
    conversation_id = b.conversation_id;
    agent_run_id = b.agent_run_id;
    approval_id = b.approval_id;
    schedule_run_id = b.schedule_run_id;
    outcome = denied;
    success = false;
    effect_key = b.request_effect_key;
    before_version = b.baseline_schedule_version;
    after_version = none;
    parameter_hash = b.parameter_hash;
    consequence_hash = b.consequence_hash;
    policy_version = b.policy_version;
    occurred_at = now;
  }

  abbrev pub audit_denial : Uuid → Option ApprovalBinding → Tx (Unit {0})
  audit_denial request none = pure tt
  audit_denial request (some b) = do
    audit ← uuid4
    attempt ← uuid4
    append_audit (denial b request audit attempt)

  -- except DecideApprovalError as exc
  abbrev pub refuse : Uuid → Fault → Tx Reply
  refuse request e =
      if must_escape e
      then raise e
      else if is_audited e
      then get approval site >>= audit_denial request >> pure (refused e)
      else pure (refused e)

  abbrev pub body_hash : ℕ
  body_hash = body_digest (decision_body approve version)

  abbrev pub answer : Decision → Tx Reply
  answer d =
      store_idempotent_result site actor (Ops.decide_approval approval) key body_hash
        (decision d.outcome)
      >> pure (
          if ended_late d.outcome
          then no_longer_current d.outcome
          else shown d.binding (presented_approval_state d.binding now))

  abbrev pub settle : Uuid → Result Decision → Tx Reply
  settle request (ok d) = answer d
  settle request (raised e) = if is_decide_error e then refuse request e else raise e

  abbrev pub read_again : Option ApprovalBinding → Reply
  read_again none = refused approval_not_found
  read_again (some b) =
      if ended_late b.state
      then no_longer_current b.state
      else shown b (presented_approval_state b now)

  -- response_payload.get("_decision_problem")
  abbrev pub problem_of : Payload → Option ApprovalState
  problem_of (decision s) = if ended_late s then some s else none
  problem_of _ = none

  abbrev pub replay_payload : World → Option ApprovalState → Tx Reply
  replay_payload before (some s) = pure (no_longer_current s)
  replay_payload before none = read before (get approval site) >>= λ b. pure (read_again b)

  abbrev pub command : Uuid → DecisionCommand
  command request = record {
    site_id = site;
    actor_id = actor;
    approval_id = approval;
    approve = approve;
    expected_resource_version = version;
    request_id = request;
  }

  abbrev pub decide_new : Bool → World → Uuid → Tx Reply
  decide_new enabled before request w =
      let done =
        decide_approval contract_digest policy_digest validate_pending (command request) now enabled
          before w in
      settle request done.0 done.1

  abbrev pub with_stored : Bool → World → Option IdempotentResult → Tx Reply
  with_stored enabled before (some stored) =
      if not (stored.body_hash == body_hash)
      then pure (refused idempotency_key_conflict)
      else replay_payload before (problem_of stored.response_payload)
  with_stored enabled before none = uuid4 >>= decide_new enabled before

  -- `decide_approval_route`, whose reads see the store `before`
  unfoldable pub decide_approval_route : Bool → World → Tx Reply
  unfolding get_idempotent_result store_idempotent_result uuid4 get append_audit decide_approval
      presented_approval_state
  decide_approval_route enabled before =
      if not enabled
      then pure (refused approval_not_granted)
      else read before (get_idempotent_result site actor (Ops.decide_approval approval) key)
        >>= with_stored enabled before

  -- The request, with what others commit between its reads and its writes.
  unfoldable pub decide_command : Bool → (World → World) → Tx Reply
  unfolding transaction decide_approval_route
  decide_command enabled others w = transaction (decide_approval_route enabled w) (others w)
