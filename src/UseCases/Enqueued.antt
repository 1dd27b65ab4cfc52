-- ===== src/UseCases/Enqueued.antt =====
-- The reply that `enqueue_compute` stores.
use roster_ai.Base.{
  ℕ, String, ◌≡◌, refl, sym, ap, ◌∙◌, Bool, true, Option, none, some, [], ◌∷◌, ◌++◌, arith, ltb,
  ◌==◌, ==_iff, eq_iff, inl, inr, Bool-cases, not,
}
use roster_ai.Base.Table.{select_one, select_one-append_none}
use roster_ai.Contracts.JobLease.{Uuid, Instant, JobLease, post_init}
use roster_ai.Contracts.Scheduling.{RunSnapshot}
use roster_ai.Contracts.Proposals.{DraftProposal, ScenarioContext, is_rejected, is_applied}
use roster_ai.Store.{World, Body, Payload, EnqueueResult, IdempotentResult}
use roster_ai.Store as Ops
use roster_ai.Store.Tx.{Tx, pure, Result, ok, require, >>=-eq-ok, require->>-eq-ok, ◌>>◌, ok_value}
use roster_ai.Repository.Rows.{uuid4, count_runs_with_statuses}
use roster_ai.Repository.Progress.{write_progress_event}
use roster_ai.Repository.Transitions.{create_queued_run}
use roster_ai.Repository.Jobs.{enqueue_job}
use roster_ai.Repository.Idempotency.{is_request, store_idempotent_result}
use roster_ai.Lifecycle.ActiveRuns.{active}
use roster_ai.UseCases.Enqueue.{
  create_run_snapshot, snapshot_proposal, with_scenario, with_context, with_ids, reply_of, replay,
  body_hash, submit_job, submit, admit, with_draft, new_job,
}

module _ (get_current : Uuid → World → Option DraftProposal)
    (get_scenario_context : Uuid → World → Option ScenarioContext) (proposal actor : Uuid) where
  with_ids-replies :
      (at : Instant) (p : DraftProposal) (c : ScenarioContext) (i v : Option Uuid) (w : World)
      → (with_ids get_current get_scenario_context proposal actor at p c i v
          w).1.command_idempotency
        ≡ w.command_idempotency
  unfolding uuid4 create_queued_run write_progress_event
  with_ids-replies at p c none v w = refl
  with_ids-replies at p c (some i) none w = refl
  with_ids-replies at p c (some i) (some v) w = ground arith

  with_scenario-replies :
      (at : Instant) (p : DraftProposal) (o : Option Uuid) (w : World)
      → (with_scenario get_current get_scenario_context proposal actor at p o
          w).1.command_idempotency
        ≡ w.command_idempotency
  with_scenario-replies at p none w = refl
  with_scenario-replies at p (some s) w =
      elim (get_scenario_context s w)
        as (λ o.
          (with_context get_current get_scenario_context proposal actor at p o
            w).1.command_idempotency
          ≡ w.command_idempotency) [
            | none ↦ refl
            | some c ↦ ground (arith, with_ids-replies at p c p.proposal_id p.proposal_version_id w)
          ]

  snapshot_proposal-replies :
      (at : Instant) (o : Option DraftProposal) (w : World)
      → (snapshot_proposal get_current get_scenario_context proposal actor at o
          w).1.command_idempotency
        ≡ w.command_idempotency
  snapshot_proposal-replies at none w = refl
  snapshot_proposal-replies at (some p) w =
      ground (arith, with_scenario-replies at p p.scenario_id w)

  module _ (contract_digest : Body → ℕ) (limit : ℕ) (site : Uuid) (version : ℕ)
      (key capability : String) where
    abbrev pub own_request : IdempotentResult → Bool
    own_request = is_request site actor (Ops.enqueue_compute proposal) key

    abbrev pub own_hash : ℕ
    own_hash =
        body_hash get_current get_scenario_context proposal actor contract_digest limit site version
          key capability

    -- The store has the reply `r` to the command.
    pub record IsEnqueued (r : EnqueueResult) (w : World) : Type 0 where
      pub stored : IdempotentResult
      pub found : select_one own_request w.command_idempotency ≡ some stored
      pub hash : stored.body_hash ≡ own_hash
      pub payload : stored.response_payload ≡ Ops.enqueued r

    reply_is :
        (p : Payload) (w : World) {r : EnqueueResult} {w' : World}
        → reply_of p w ≡ (ok r, w')
        → (p ≡ Ops.enqueued r) × (w' ≡ w)
    reply_is (Ops.enqueued a) w h =
        let same = ok_value h in
        let own = ap (λ (q : Result EnqueueResult × World). q.1) h in (cc same, sym own)
    reply_is (Ops.cancellation a) w h = cc
    reply_is (Ops.decision a) w h = cc

    pub replay-IsEnqueued :
        (stored : IdempotentResult) (w : World) {r : EnqueueResult} {w' : World}
        → select_one own_request w.command_idempotency ≡ some stored
        → replay get_current get_scenario_context proposal actor contract_digest limit site version
            key capability stored w
          ≡ (ok r, w')
        → IsEnqueued r w'
    replay-IsEnqueued stored w {r} {w'} found h = elim (Bool-cases (stored.body_hash == own_hash)) [
      | inl e ↦
          let got = reply_is stored.response_payload w (rw e at h) in
          record {
            stored = stored;
            found = ap (λ (v : World). select_one own_request v.command_idempotency) got.1 ∙ found;
            hash = (==_iff stored.body_hash own_hash).0 e;
            payload = got.0;
          }
      | inr e ↦ cc (rw e at h)
    ]

    enqueue_job-replies :
        (job : JobLease) (w : World)
        → (enqueue_job job site w).1.command_idempotency ≡ w.command_idempotency
    unfolding enqueue_job
    enqueue_job-replies job w = ground arith

    abbrev own_reply : EnqueueResult → IdempotentResult
    own_reply r = record {
      site_id = site;
      actor_id = actor;
      operation = Ops.enqueue_compute proposal;
      idempotency_key = key;
      body_hash = own_hash;
      response_payload = Ops.enqueued r;
    }

    own_reply_matches : (r : EnqueueResult) → own_request (own_reply r) ≡ true
    own_reply_matches r =
        rw
          (
            (==_iff site site).1 refl,
            (==_iff actor actor).1 refl,
            (==_iff proposal proposal).1 refl,
            (eq_iff key key).1 refl,
          )
          refl

    abbrev reply_with : EnqueueResult → Tx EnqueueResult
    reply_with r =
        store_idempotent_result site actor (Ops.enqueue_compute proposal) key own_hash
          (Ops.enqueued r)
        >> pure r

    reply_with-IsEnqueued :
        (made : EnqueueResult) (w : World) {r : EnqueueResult} {w' : World}
        → select_one own_request w.command_idempotency ≡ none
        → reply_with made w ≡ (ok r, w')
        → IsEnqueued r w'
    unfolding store_idempotent_result
    reply_with-IsEnqueued made w {r} {w'} none_yet h =
        let row = own_reply made in
        let after : World = record w { command_idempotency = w.command_idempotency ++ row ∷ [] } in
        let computed : reply_with made w ≡ (ok made, after) = rw none_yet refl in
        let own = ok_value (sym computed ∙ h) in
        let last = ap (λ (q : Result EnqueueResult × World). q.1) (sym computed ∙ h) in
        record {
          stored = row;
          found =
              ap (λ (a : World). select_one own_request a.command_idempotency) (sym last)
              ∙ select_one-append_none own_request w.command_idempotency row none_yet
              ∙ rw (own_reply_matches made) refl;
          hash = refl;
          payload = cc own;
        }

    submit_job-IsEnqueued :
        (at : Instant) (s : RunSnapshot) (w : World) {r : EnqueueResult} {w' : World}
        → select_one own_request w.command_idempotency ≡ none
        → submit_job get_current get_scenario_context proposal actor contract_digest limit site
            version key capability at s w
          ≡ (ok r, w')
        → IsEnqueued r w'
    unfolding uuid4
    submit_job-IsEnqueued at s w none_yet h =
        let v = (uuid4 w).1 in
        let job =
          new_job get_current get_scenario_context proposal actor contract_digest limit site version
            key capability w.next_uuid s.schedule_run_id at in
        let made : EnqueueResult = record {
          schedule_run_id = s.schedule_run_id;
          job_id = w.next_uuid;
        } in
        let x =
          require->>-eq-ok (post_init job) Ops.value_error (enqueue_job job site >> reply_with made)
            v h in
        let y = >>=-eq-ok (enqueue_job job site) (λ _. reply_with made) v x.1 in
        reply_with-IsEnqueued made (enqueue_job job site v).1
          (ap (select_one own_request) (enqueue_job-replies job v) ∙ none_yet) y.2

    submit-IsEnqueued :
        (before w : World) {r : EnqueueResult} {w' : World}
        → select_one own_request w.command_idempotency ≡ none
        → submit get_current get_scenario_context proposal actor contract_digest limit site version
            key capability before w
          ≡ (ok r, w')
        → IsEnqueued r w'
    unfolding create_run_snapshot
    submit-IsEnqueued before w none_yet h =
        let m =
          create_run_snapshot get_current get_scenario_context proposal actor before w.clock in
        let rest =
          submit_job get_current get_scenario_context proposal actor contract_digest limit site
            version key capability w.clock in
        let x = >>=-eq-ok m rest w h in
        submit_job-IsEnqueued w.clock x.0 (m w).1
          (ap (select_one own_request)
              (snapshot_proposal-replies w.clock (get_current proposal before) w)
            ∙ none_yet)
          x.2

    pub draft-IsEnqueued :
        (before : World) (p : DraftProposal) (w : World) {r : EnqueueResult} {w' : World}
        → select_one own_request w.command_idempotency ≡ none
        → with_draft get_current get_scenario_context proposal actor contract_digest limit site
            version key capability before p w
          ≡ (ok r, w')
        → IsEnqueued r w'
    unfolding count_runs_with_statuses
    draft-IsEnqueued before p w none_yet h =
        let m =
          submit get_current get_scenario_context proposal actor contract_digest limit site version
            key capability before in
        let last =
          admit get_current get_scenario_context proposal actor contract_digest limit site version
            key capability before in
        let third = require (p.resource_version == version) Ops.stale_resource_version >> last in
        let second = require (not (is_applied p.state)) Ops.applied_proposal >> third in
        let x = require->>-eq-ok (not (is_rejected p.state)) Ops.rejected_proposal second w h in
        let y = require->>-eq-ok (not (is_applied p.state)) Ops.applied_proposal third w x.1 in
        let z =
          require->>-eq-ok (p.resource_version == version) Ops.stale_resource_version last w y.1 in
        let free =
          require->>-eq-ok (ltb (active site w) limit) Ops.site_concurrency_exhausted m w z.1 in
        submit-IsEnqueued before w none_yet free.1
