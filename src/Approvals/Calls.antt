-- ===== src/Approvals/Calls.antt =====
-- The committed requests and decisions of approvals, and what they do to `approval_request`.
use mathlib.Core.Option
use roster_ai.Base.{
  ℕ, String, refl, Bool, not, Option, none, some, List, arith, if◌then◌else◌, ◌==◌, any,
}
use roster_ai.Contracts.RunStatus.{status_eq, solver_completed}
use roster_ai.Contracts.JobLease.{Uuid, Instant}
use roster_ai.Contracts.Scheduling.{Candidate}
use roster_ai.Contracts.Approvals.{ApprovalState, is_pending, ApprovalBinding, Signed, SiteBaseline}
use roster_ai.Store.{
  World, ScheduleRun, Body, decision_body, Fault, IdempotentResult, Operation, Payload,
  approval_not_granted, candidate_not_found, candidate_not_promotable, stale_resource_version,
  approval_already_pending, stale_baseline_version, integrity_error,
}
use roster_ai.Store as Ops
use roster_ai.Store.Tx.{Tx, Result, ok, raised, pure, raise, transaction, ◌>>=◌, ◌>>◌}
use roster_ai.Repository.Rows.{uuid4}
use roster_ai.Repository.Idempotency.{get_idempotent_result, store_idempotent_result}
use roster_ai.Approvals.Rows.{
  get, append_audit, create_pending, get_run, get_candidate, list_for_schedule_run, get_baseline,
}
use roster_ai.Approvals.Conversations.{append_approval_activity, pause_agent_run_for_approval}
use roster_ai.Approvals.Promote.{AgentApprovalPending}
use roster_ai.Approvals.Decide.{Decision, decide_approval, is_feasible, uuid_eq}
use roster_ai.Approvals.Route.{
  Reply, refused, read_again, settle, refuse, audit_denial, decide_new, with_stored, replay_payload,
  decide_approval_route, is_decide_error, must_escape, is_audited, command, problem_of,
}
use roster_ai.Approvals.Request.{
  RequestCommand, bind as bind_candidate, announce, new_binding, request_audit, request_approval,
  with_baseline, with_existing, with_run, with_found,
}
use roster_ai.Approvals.Request
use roster_ai.Approvals.Steps.{
  Steps, steps_require, steps_read, steps_some, steps_value, steps_if, steps_transaction,
}
use roster_ai.Approvals.Moves.{
  ApprovalMoves, stays, Keeps, kept, bind, uuid4-Keeps, append_audit-Keeps, ApprovalMoves-Keeps,
  bind_before, bind_after, create_pending-Moves, decide_approval-Moves,
}

store-Keeps :
    (site actor : Uuid) (operation : Operation) (key : String) (hash : ℕ) (payload : Payload)
    → Steps Keeps kept (store_idempotent_result site actor operation key hash payload)
unfolding store_idempotent_result
store-Keeps site actor operation key hash payload w = ground arith

-- The digests and the reader of payloads, which the requests share.
module _ (body_digest : Body → ℕ) (contract_digest : Signed → ℕ) (policy_digest : Bool → String)
    (validate_pending : ℕ → Option AgentApprovalPending) (approval_expiry_seconds : ℕ) where
  module _ (site actor approval : Uuid) (approve : Bool) (version : ℕ) (key : String)
      (now : Instant) where
    denial-Keeps :
        (request : Uuid) (o : Option ApprovalBinding)
        → Steps Keeps kept (
            audit_denial body_digest contract_digest policy_digest validate_pending site actor
              approval approve version key now request o)
    denial-Keeps request none = kept
    denial-Keeps request (some b) =
        bind uuid4 _ uuid4-Keeps λ audit. bind uuid4 _ uuid4-Keeps λ attempt. append_audit-Keeps _

    refuse-Keeps :
        (request : Uuid) (e : Fault)
        → Steps Keeps kept (
            refuse body_digest contract_digest policy_digest validate_pending site actor approval
              approve version key now request e)
    unfolding get
    refuse-Keeps request e =
        let write =
          audit_denial body_digest contract_digest policy_digest validate_pending site actor
            approval approve version key now request in
        let found = get approval site in
        let told : Tx Reply = pure (refused e) in
        steps_if Keeps kept {A = Reply} (must_escape e) (raise e)
          (if is_audited e then found >>= write >> told else told) kept
          (steps_if Keeps kept (is_audited e) (found >>= write >> told) told
            (steps_value Keeps kept (found >>= write) (λ _. refused e)
              (bind found write (λ w. refl) (denial-Keeps request)))
            kept)

    settle-Keeps :
        (request : Uuid) (r : Result Decision)
        → Steps Keeps kept (
            settle body_digest contract_digest policy_digest validate_pending site actor approval
              approve version key now request r)
    settle-Keeps request (ok d) =
        steps_value Keeps kept (store_idempotent_result site actor _ key _ _) _
          (store-Keeps site actor _ key _ _)
    settle-Keeps request (raised e) =
        steps_if Keeps kept (is_decide_error e) _ _ (refuse-Keeps request e) kept

    new-Moves :
        (enabled : Bool) (before : World) (request : Uuid)
        → Steps ApprovalMoves stays (
            decide_new body_digest contract_digest policy_digest validate_pending site actor
              approval approve version key now enabled before request)
    new-Moves enabled before request w =
        let c =
          command body_digest contract_digest policy_digest validate_pending site actor approval
            approve version key now request in
        let done =
          decide_approval contract_digest policy_digest validate_pending c now enabled before w in
        ApprovalMoves-Keeps w done.1 _
          (decide_approval-Moves contract_digest policy_digest validate_pending c now enabled before
            w)
          (settle-Keeps request done.0 done.1)

    replay-Stays :
        (before : World) (o : Option ApprovalState)
        → Steps ApprovalMoves stays (
            replay_payload body_digest contract_digest policy_digest validate_pending site actor
              approval approve version key now before o)
    replay-Stays before (some s) = stays
    replay-Stays before none =
        steps_read ApprovalMoves stays {B = Reply} before (get approval site)
          (λ b. pure (
            read_again body_digest contract_digest policy_digest validate_pending site actor
              approval approve version key now b))
          (λ b. stays)

    stored-Moves :
        (enabled : Bool) (before : World) (o : Option IdempotentResult)
        → Steps ApprovalMoves stays (
            with_stored body_digest contract_digest policy_digest validate_pending site actor
              approval approve version key now enabled before o)
    unfolding uuid4
    stored-Moves enabled before (some stored) =
        steps_if ApprovalMoves stays {A = Reply}
          (not (stored.body_hash == body_digest (decision_body approve version))) _ _ stays
          (replay-Stays before (
            problem_of body_digest contract_digest policy_digest validate_pending site actor
              approval approve version key now stored.response_payload))
    stored-Moves enabled before none =
        bind_before uuid4
          (decide_new body_digest contract_digest policy_digest validate_pending site actor approval
            approve version key now enabled before)
          uuid4-Keeps (new-Moves enabled before)

    pub route-Moves :
        (enabled : Bool) (before : World)
        → Steps ApprovalMoves stays (
            transaction (
              decide_approval_route body_digest contract_digest policy_digest validate_pending site
                actor approval approve version key now enabled before))
    unfolding decide_approval_route
    route-Moves enabled before =
        let route =
          decide_approval_route body_digest contract_digest policy_digest validate_pending site
            actor approval approve version key now enabled before in
        let stored = get_idempotent_result site actor (Ops.decide_approval approval) key in
        let go_on =
          with_stored body_digest contract_digest policy_digest validate_pending site actor approval
            approve version key now enabled before in
        steps_transaction ApprovalMoves stays route (
          steps_if ApprovalMoves stays {A = Reply} (not enabled) _ _ stays (
            steps_read ApprovalMoves stays {B = Reply} before stored go_on
              (stored-Moves enabled before)))

  module _ (c : RequestCommand) (now : Instant) where
    announce-Keeps :
        (b : ApprovalBinding) (agent : Option Uuid)
        → Steps Keeps kept
            (announce contract_digest policy_digest approval_expiry_seconds c now b agent)
    unfolding append_approval_activity pause_agent_run_for_approval uuid4
    announce-Keeps b none w = ground arith
    announce-Keeps b (some agent) w = ground arith

    bind-Moves :
        (enabled : Bool) (candidate : Candidate) (baseline : Option SiteBaseline)
        → Steps ApprovalMoves stays (
            bind_candidate contract_digest policy_digest approval_expiry_seconds c now enabled
              candidate baseline)
    bind-Moves enabled candidate baseline =
        let b =
          new_binding contract_digest policy_digest approval_expiry_seconds c now enabled candidate
            baseline in
        let audit = request_audit contract_digest policy_digest approval_expiry_seconds c now in
        let tell = announce contract_digest policy_digest approval_expiry_seconds c now in
        let last : ApprovalBinding → Tx ApprovalBinding = λ x. tell x c.agent_run_id >> pure x in
        let rest : ApprovalBinding → Tx ApprovalBinding =
          λ x. uuid4 >>= (λ i. uuid4 >>= λ j. append_audit (audit x i j) >> last x) in
        bind_before uuid4
          (λ approval. create_pending (b approval) c.pending_payload >> rest (b approval))
          uuid4-Keeps
          λ approval.
            bind_after (create_pending (b approval) c.pending_payload) (λ _. rest (b approval))
              (create_pending-Moves (b approval) c.pending_payload)
              λ u.
                bind uuid4
                  (λ i. uuid4 >>= λ j. append_audit (audit (b approval) i j) >> last (b approval))
                  uuid4-Keeps
                  λ i.
                    bind uuid4 (λ j. append_audit (audit (b approval) i j) >> last (b approval))
                      uuid4-Keeps
                      λ j.
                        bind (append_audit (audit (b approval) i j)) (λ _. last (b approval))
                          (append_audit-Keeps (audit (b approval) i j))
                          λ v.
                            steps_value Keeps kept (tell (b approval) c.agent_run_id)
                              (λ _. b approval) (announce-Keeps (b approval) c.agent_run_id)

    existing-Moves :
        (enabled : Bool) (before : World) (candidate : Candidate) (existing : List ApprovalBinding)
        → Steps ApprovalMoves stays (
            with_existing contract_digest policy_digest approval_expiry_seconds c now enabled before
              candidate existing)
    existing-Moves enabled before candidate existing =
        steps_require ApprovalMoves stays {A = ApprovalBinding}
          (not (any (λ b. is_pending b.state) existing)) approval_already_pending _
          (steps_read ApprovalMoves stays before (get_baseline c.site_id)
            (with_baseline contract_digest policy_digest approval_expiry_seconds c now enabled
              candidate)
            λ baseline.
              steps_require ApprovalMoves stays {A = ApprovalBinding}
                (uuid_eq (Option.map (λ s. s.schedule_version_id) baseline)
                  c.expected_baseline_schedule_version)
                stale_baseline_version _ (bind-Moves enabled candidate baseline))

    candidate-Moves :
        (enabled : Bool) (before : World) (candidate : Candidate)
        → Steps ApprovalMoves stays (
            Request.with_candidate contract_digest policy_digest approval_expiry_seconds c now
              enabled before candidate)
    candidate-Moves enabled before candidate =
        steps_require ApprovalMoves stays {A = ApprovalBinding}
          (is_feasible candidate.feasible_solver_status) candidate_not_promotable _
          (steps_read ApprovalMoves stays before (list_for_schedule_run c.schedule_run_id c.site_id)
            (with_existing contract_digest policy_digest approval_expiry_seconds c now enabled
              before candidate)
            (existing-Moves enabled before candidate))

    run-Moves :
        (enabled : Bool) (before : World) (run : ScheduleRun)
        → Steps ApprovalMoves stays (
            with_run contract_digest policy_digest approval_expiry_seconds c now enabled before run)
    run-Moves enabled before run =
        steps_require ApprovalMoves stays {A = ApprovalBinding}
          (status_eq run.status solver_completed) candidate_not_promotable _
          (steps_require ApprovalMoves stays {A = ApprovalBinding}
            (run.resource_version == c.expected_resource_version) stale_resource_version _
            (steps_read ApprovalMoves stays before (get_candidate c.schedule_run_id c.site_id)
              (Request.with_stored contract_digest policy_digest approval_expiry_seconds c now
                enabled before)
              λ stored.
                steps_some ApprovalMoves stays stored candidate_not_promotable
                  (Request.with_candidate contract_digest policy_digest approval_expiry_seconds c
                    now enabled before)
                  (candidate-Moves enabled before)))

    pub request-Moves :
        (enabled : Bool) (before : World)
        → Steps ApprovalMoves stays (
            transaction (
              request_approval contract_digest policy_digest approval_expiry_seconds c now enabled
                before))
    unfolding request_approval
    request-Moves enabled before =
        steps_transaction ApprovalMoves stays
          (request_approval contract_digest policy_digest approval_expiry_seconds c now enabled
            before)
          (steps_require ApprovalMoves stays {A = ApprovalBinding} enabled approval_not_granted _ (
            steps_read ApprovalMoves stays before (get_run c.schedule_run_id c.site_id)
              (with_found contract_digest policy_digest approval_expiry_seconds c now enabled
                before)
              λ found.
                steps_some ApprovalMoves stays found candidate_not_found
                  (with_run contract_digest policy_digest approval_expiry_seconds c now enabled
                    before)
                  (run-Moves enabled before)))
