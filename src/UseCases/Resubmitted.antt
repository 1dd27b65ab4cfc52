-- ===== src/UseCases/Resubmitted.antt =====
-- An enqueue that is sent again: `enqueue_compute` on its stored reply.
use roster_ai.Base.{ℕ, String, ◌≡◌, Bool, true, Option, none, some, List, ==_iff, refl}
use roster_ai.Base.Table.{select_one}
use roster_ai.Contracts.JobLease.{Uuid}
use roster_ai.Contracts.Proposals.{DraftProposal, ScenarioContext}
use roster_ai.Store.{World, Body, EnqueueResult, IdempotentResult}
use roster_ai.Store as Ops
use roster_ai.Store.Tx.{ok, require->>-eq-ok, transaction-eq-ok, transaction-of-ok}
use roster_ai.Repository.Idempotency.{get_idempotent_result}
use roster_ai.Lifecycle.Calls.{Call, performs}
use roster_ai.Store.Tx.{raised_is_no_value}
use roster_ai.UseCases.Replies.{performs-finds_reply}
use roster_ai.UseCases.Enqueue.{
  with_stored, with_key, is_key, with_proposal, enqueue_compute, enqueue_command,
}
use roster_ai.UseCases.Enqueued.{
  own_request, own_hash, IsEnqueued, replay-IsEnqueued, draft-IsEnqueued,
}

module _ (get_current : Uuid → World → Option DraftProposal)
    (get_scenario_context : Uuid → World → Option ScenarioContext) (proposal actor : Uuid)
    (contract_digest : Body → ℕ) (limit : ℕ) (site : Uuid) (version : ℕ)
    (key capability : String) where
  abbrev Enqueued : EnqueueResult → World → Type 0
  Enqueued =
      IsEnqueued get_current get_scenario_context proposal actor contract_digest limit site version
        key capability

  abbrev own : IdempotentResult → Bool
  own =
      own_request get_current get_scenario_context proposal actor contract_digest limit site version
        key capability

  abbrev has_key : Bool
  has_key =
      is_key get_current get_scenario_context proposal actor contract_digest limit site version key
        capability

  stored_reply :
      (before : World) (p : DraftProposal) (o : Option IdempotentResult) (w : World)
      {r : EnqueueResult} {w' : World}
      → select_one own w.command_idempotency ≡ o
      → with_stored get_current get_scenario_context proposal actor contract_digest limit site
          version key capability before p o w
        ≡ (ok r, w')
      → Enqueued r w'
  stored_reply before p none w e h =
      draft-IsEnqueued get_current get_scenario_context proposal actor contract_digest limit site
        version key capability before p w e h
  stored_reply before p (some stored) w e h =
      replay-IsEnqueued get_current get_scenario_context proposal actor contract_digest limit site
        version key capability stored w e h

  first_reply :
      (before : World) (o : Option DraftProposal) (w : World) {r : EnqueueResult} {w' : World}
      → select_one own w.command_idempotency ≡ select_one own before.command_idempotency
      → with_proposal get_current get_scenario_context proposal actor contract_digest limit site
          version key capability before o w
        ≡ (ok r, w')
      → (has_key ≡ true) × Enqueued r w'
  unfolding get_idempotent_result
  first_reply before none w e h = absurd (raised_is_no_value h)
  first_reply before (some p) w e h =
      let rest =
        with_key get_current get_scenario_context proposal actor contract_digest limit site version
          key capability before p in
      let named = require->>-eq-ok has_key Ops.enqueue_compute_error rest w h in
      (named.0, stored_reply before p (select_one own before.command_idempotency) w e named.1)

  performs-Enqueued :
      (cs : List Call) (w : World) {r : EnqueueResult} → Enqueued r w → Enqueued r (performs cs w)
  performs-Enqueued cs w a = record {
    stored = a.stored;
    found = performs-finds_reply cs own w a.found;
    hash = a.hash;
    payload = a.payload;
  }

  replied_again :
      (u later : World) {p : DraftProposal} {r : EnqueueResult}
      → has_key ≡ true
      → get_current proposal u ≡ some p
      → Enqueued r u
      → enqueue_compute get_current get_scenario_context proposal actor contract_digest limit site
          version key capability u later
        ≡ (ok r, later)
  unfolding enqueue_compute get_idempotent_result
  replied_again u later named present a =
      rw
        (
          present,
          named,
          a.found,
          (==_iff a.stored.body_hash (
                own_hash get_current get_scenario_context proposal actor contract_digest limit site
                  version key capability)).1
              a.hash,
          a.payload,
        )
        refl

  -- When an enqueue has returned a result, its reads having seen the reply under its key that was
  -- there when it wrote, if any, then after any committed calls, while the proposal is found, the
  -- same command returns that result again and writes nothing, on whatever store it falls.
  pub enqueue_command-replays :
      (before w : World) {r : EnqueueResult} {w' : World} (cs : List Call) {p : DraftProposal}
      (later : World)
      → select_one own w.command_idempotency ≡ select_one own before.command_idempotency
      → enqueue_command get_current get_scenario_context proposal actor contract_digest limit site
          version key capability before w
        ≡ (ok r, w')
      → get_current proposal (performs cs w') ≡ some p
      → enqueue_command get_current get_scenario_context proposal actor contract_digest limit site
          version key capability
          (performs cs w')
          later
        ≡ (ok r, later)
  unfolding enqueue_command enqueue_compute
  enqueue_command-replays before w {r} {w'} cs later same h present =
      let m =
        enqueue_compute get_current get_scenario_context proposal actor contract_digest limit site
          version key capability in
      let first =
        first_reply before (get_current proposal before) w same
          (transaction-eq-ok (m before) w h) in
      transaction-of-ok (m (performs cs w')) later
        (replied_again (performs cs w') later first.0 present (performs-Enqueued cs w' first.1))
