-- ===== src/UseCases/Capacity.antt =====
-- The bound on the active runs of a site: `enqueue_compute`.
use roster_ai.Base.{
  ℕ, suc, ◌+◌, ◌≤◌, ◌≡◌, refl, ap, String, true, false, Option, none, some, max, arith, ◌==◌,
  if◌then◌else◌, inl, inr, not, ltb,
}
use roster_ai.Base.Table.{count, select_one}
use roster_ai.Contracts.JobLease.{Uuid, Instant}
use roster_ai.Contracts.Proposals.{DraftProposal, ScenarioContext, is_rejected, is_applied}
use roster_ai.Contracts.Scheduling.{RunSnapshot}
use roster_ai.Store.Tx.{raised_is_no_value}
use roster_ai.Store.{World, Body, Payload, EnqueueResult, ScheduleRun, IdempotentResult}
use roster_ai.Store as Ops
use roster_ai.Store.Tx.{
  Result, ok, raise, pure, require, >>=-eq-ok, require->>-eq-ok, transaction-cases, ◌>>◌, Tx-eq-ok,
}
use roster_ai.Repository.Rows.{uuid4, count_runs_with_statuses}
use roster_ai.Repository.Transitions.{create_queued_run}
use roster_ai.Repository.Jobs.{enqueue_job}
use roster_ai.Repository.Idempotency.{is_request, get_idempotent_result, store_idempotent_result}
use roster_ai.Lifecycle.Cancels.{create_queued_run-Moves}
use roster_ai.UseCases.Enqueue.{
  with_ids, is_fresh, snapshot_is_whole, snapshot_of, with_scenario, with_context, reply_of, replay,
  with_key, is_key, submit_job, insert_job, snapshot_proposal, create_run_snapshot, submit, admit,
  with_stored, with_proposal, enqueue_compute, enqueue_command,
}
use roster_ai.Lifecycle.ActiveRuns.{is_active, active, Moves-active}

create-active :
    (site : Uuid) (s : RunSnapshot) (at actor : Uuid) (w : World) {s' : RunSnapshot} {w' : World}
    → (create_queued_run s at actor >> pure s) w ≡ (ok s', w')
    → active site w' ≤ active site w + 1
create-active site s at actor w h =
    let r = >>=-eq-ok (create_queued_run s at actor) _ w h in
    omega (
      arith,
      Moves-active site w (create_queued_run s at actor w).1
          (create_queued_run-Moves s at actor w (Tx-eq-ok r.1 refl)),
      ap (λ (p : Result RunSnapshot × World). active site p.1) r.2,
    )

reply_writes_nothing : (r : Payload) (w : World) → (reply_of r w).1 ≡ w
reply_writes_nothing (Ops.cancellation c) w = refl
reply_writes_nothing (Ops.enqueued r) w = refl
reply_writes_nothing (Ops.decision s) w = refl

module _ (get_current : Uuid → World → Option DraftProposal)
    (get_scenario_context : Uuid → World → Option ScenarioContext) (proposal actor : Uuid)
    (site : Uuid) where
  with_ids-active :
      (at : Instant) (p : DraftProposal) (context : ScenarioContext) (i v : Option Uuid) (w : World)
      {s : RunSnapshot} {w' : World}
      → with_ids get_current get_scenario_context proposal actor at p context i v w ≡ (ok s, w')
      → active site w' ≤ active site w + 1
  unfolding uuid4
  with_ids-active at p context none v w h = absurd (raised_is_no_value h)
  with_ids-active at p context (some id) none w h = absurd (raised_is_no_value h)
  with_ids-active at p context (some id) (some version) w h =
      let drawn = (uuid4 (uuid4 w).1).1 in
      let s =
        snapshot_of get_current get_scenario_context proposal actor p context id version w.next_uuid
          (suc w.next_uuid) at in
      let whole =
        require->>-eq-ok
          (snapshot_is_whole get_current get_scenario_context proposal actor p context)
          Ops.value_error (create_queued_run s context.site_id actor >> pure s) drawn h in
      create-active site s context.site_id actor drawn whole.1

  with_context-active :
      (at : Instant) (p : DraftProposal) (o : Option ScenarioContext) (w : World) {s : RunSnapshot}
      {w' : World}
      → with_context get_current get_scenario_context proposal actor at p o w ≡ (ok s, w')
      → active site w' ≤ active site w + 1
  with_context-active at p none w h = absurd (raised_is_no_value h)
  with_context-active at p (some context) w h =
      with_ids-active at p context p.proposal_id p.proposal_version_id w
        (require->>-eq-ok (is_fresh get_current get_scenario_context proposal actor p context)
          Ops.stale_proposal
          (with_ids get_current get_scenario_context proposal actor at p context p.proposal_id
            p.proposal_version_id)
          w h).1

  with_scenario-active :
      (at : Instant) (p : DraftProposal) (o : Option Uuid) (w : World) {s : RunSnapshot}
      {w' : World}
      → with_scenario get_current get_scenario_context proposal actor at p o w ≡ (ok s, w')
      → active site w' ≤ active site w + 1
  with_scenario-active at p none w h = absurd (raised_is_no_value h)
  with_scenario-active at p (some scenario) w h =
      with_context-active at p (get_scenario_context scenario w) w h

  snapshot_proposal-active :
      (at : Instant) (o : Option DraftProposal) (w : World) {s : RunSnapshot} {w' : World}
      → snapshot_proposal get_current get_scenario_context proposal actor at o w ≡ (ok s, w')
      → active site w' ≤ active site w + 1
  snapshot_proposal-active at none w h = absurd (raised_is_no_value h)
  snapshot_proposal-active at (some p) w h =
      let rest = with_scenario get_current get_scenario_context proposal actor at p p.scenario_id in
      let live =
        require->>-eq-ok (not (is_rejected p.state)) Ops.rejected_proposal
          (require (not (is_applied p.state)) Ops.applied_proposal >> rest) w h in
      with_scenario-active at p p.scenario_id w
        (require->>-eq-ok (not (is_applied p.state)) Ops.applied_proposal rest w live.1).1

  module _ (contract_digest : Body → ℕ) (limit : ℕ) (version : ℕ) (key capability : String) where
    insert_job-runs :
        (job run : Uuid) (at : Instant) (w : World)
        → (insert_job get_current get_scenario_context proposal actor contract_digest limit site
            version key capability job run at w).1.schedule_run
          ≡ w.schedule_run
    unfolding enqueue_job store_idempotent_result
    insert_job-runs job run at w = ground arith

    submit-active :
        (before w : World) {a : EnqueueResult} {w' : World}
        → submit get_current get_scenario_context proposal actor contract_digest limit site version
            key capability before w
          ≡ (ok a, w')
        → active site w' ≤ active site w + 1
    unfolding create_run_snapshot uuid4
    submit-active before w h =
        let m =
          create_run_snapshot get_current get_scenario_context proposal actor before w.clock in
        let rest =
          submit_job get_current get_scenario_context proposal actor contract_digest limit site
            version key capability w.clock in
        let r = >>=-eq-ok m rest w h in
        let v = (m w).1 in
        omega (
          arith,
          snapshot_proposal-active w.clock (get_current proposal before) w (Tx-eq-ok r.1 refl),
          ap (count (is_active site))
              (insert_job-runs v.next_uuid r.0.schedule_run_id w.clock (uuid4 v).1),
          ap (λ (p : Result EnqueueResult × World). active site p.1) r.2,
        )

    admit-active :
        (before w : World) {a : EnqueueResult} {w' : World}
        → admit get_current get_scenario_context proposal actor contract_digest limit site version
            key capability before w
          ≡ (ok a, w')
        → active site w' ≤ limit
    unfolding count_runs_with_statuses
    admit-active before w h =
        let m =
          submit get_current get_scenario_context proposal actor contract_digest limit site version
            key capability before in
        let free =
          require->>-eq-ok (ltb (active site w) limit) Ops.site_concurrency_exhausted m w h in
        ground (arith, submit-active before w free.1, free.0)

    replay_writes_nothing :
        (stored : IdempotentResult) (w : World)
        → (replay get_current get_scenario_context proposal actor contract_digest limit site version
            key capability stored w).1
          ≡ w
    replay_writes_nothing stored w =
        elim (not (stored.body_hash == contract_digest (Ops.enqueue_body proposal version)))
          as (λ b.
            ((if b then raise Ops.idempotency_key_conflict else reply_of stored.response_payload)
              w).1
            ≡ w) [ true ↦ refl | false ↦ reply_writes_nothing stored.response_payload w ]

    with_stored-active :
        (before : World) (p : DraftProposal) (o : Option IdempotentResult) (w : World)
        {a : EnqueueResult} {w' : World}
        → with_stored get_current get_scenario_context proposal actor contract_digest limit site
            version key capability before p o w
          ≡ (ok a, w')
        → active site w' ≤ max (active site w) limit
    with_stored-active before p (some stored) w h = omega (
      arith,
      ap (active site) (replay_writes_nothing stored w),
      ap (λ (p : Result EnqueueResult × World). active site p.1) h,
    )
    with_stored-active before p none w h =
        let last =
          admit get_current get_scenario_context proposal actor contract_digest limit site version
            key capability before in
        let third = require (p.resource_version == version) Ops.stale_resource_version >> last in
        let second = require (not (is_applied p.state)) Ops.applied_proposal >> third in
        let x = require->>-eq-ok (not (is_rejected p.state)) Ops.rejected_proposal second w h in
        let y = require->>-eq-ok (not (is_applied p.state)) Ops.applied_proposal third w x.1 in
        let z =
          require->>-eq-ok (p.resource_version == version) Ops.stale_resource_version last w y.1 in
        omega (arith, admit-active before w z.1)

    with_proposal-active :
        (before : World) (o : Option DraftProposal) (w : World) {a : EnqueueResult} {w' : World}
        → with_proposal get_current get_scenario_context proposal actor contract_digest limit site
            version key capability before o w
          ≡ (ok a, w')
        → active site w' ≤ max (active site w) limit
    unfolding get_idempotent_result
    with_proposal-active before none w h = absurd (raised_is_no_value h)
    with_proposal-active before (some p) w h =
        let rest =
          with_key get_current get_scenario_context proposal actor contract_digest limit site
            version key capability before p in
        let named =
          require->>-eq-ok
            (is_key get_current get_scenario_context proposal actor contract_digest limit site
              version key capability)
            Ops.enqueue_compute_error rest w h in
        with_stored-active before p
          (select_one (is_request site actor (Ops.enqueue_compute proposal) key)
            before.command_idempotency)
          w named.1

  -- An enqueue leaves the site's active runs at most at the limit, or where they were, whether it
  -- returns or raises and whatever store its reads saw.
  pub enqueue_command-active :
      (contract_digest : Body → ℕ) (limit : ℕ) (version : ℕ) (key capability : String)
      (before w : World)
      → active site
          (enqueue_command get_current get_scenario_context proposal actor contract_digest limit
            site version key capability before w).1
        ≤ max (active site w) limit
  unfolding enqueue_compute enqueue_command
  enqueue_command-active contract_digest limit version key capability before w =
      let m =
        enqueue_compute get_current get_scenario_context proposal actor contract_digest limit site
          version key capability before in
      elim (transaction-cases m w) [
        | inl (a, e, f) ↦ omega (
          arith,
          ap (active site) f,
          with_proposal-active contract_digest limit version key capability before
              (get_current proposal before) w e,
        )
        | inr e ↦ omega (arith, ap (active site) e)
      ]
