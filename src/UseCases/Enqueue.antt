-- ===== src/UseCases/Enqueue.antt =====
-- `enqueue_compute` and `create_run_snapshot`. The proposal repository and the scenario catalogue are
-- ports of the use case, arguments as in the source; the proposal's row is locked by its first read,
-- so that the second sees it too. The fields of a snapshot that no reader uses are left out.
use Prim.Native.String.{count}
use roster_ai.Base.{
  ℕ, String, Bool, false, not, ◌&&◌, Option, none, some, if◌then◌else◌, str_eq, leb, ltb, ◌==◌,
}
use roster_ai.Contracts.RunStatus.{non_terminal}
use roster_ai.Contracts.JobLease.{
  Uuid, Instant, JobLease, queued, post_init, max_idempotency_key_length,
}
use roster_ai.Contracts.Scheduling.{RunSnapshot}
use roster_ai.Contracts.Proposals.{DraftProposal, ScenarioContext, is_rejected, is_applied}
use roster_ai.Store.{
  World, Body, enqueue_body, EnqueueResult, IdempotentResult, Payload, enqueued, value_error,
  idempotency_key_conflict, stale_resource_version, proposal_not_found, enqueue_compute_error,
  key_error, site_concurrency_exhausted, rejected_proposal, applied_proposal, invalid_proposal,
  scenario_unavailable, stale_proposal,
}
use roster_ai.Store as Ops
use roster_ai.UseCases.Sessions.{read}
use roster_ai.Store.Tx.{transaction, Tx, pure, raise, gets, require, ◌>>=◌, ◌>>◌}
use roster_ai.Repository.Rows.{uuid4, count_runs_with_statuses}
use roster_ai.Repository.Transitions.{create_queued_run}
use roster_ai.Repository.Jobs.{enqueue_job}
use roster_ai.Repository.Idempotency.{get_idempotent_result, store_idempotent_result}

abbrev same_version : Option Uuid → Option Uuid → Bool
same_version none none = Bool.true
same_version (some a) (some b) = a == b
same_version _ _ = false

abbrev pub reply_of : Payload → Tx EnqueueResult
reply_of (enqueued r) = pure r
reply_of _ = raise key_error

module _ (get_current : Uuid → World → Option DraftProposal)
    (get_scenario_context : Uuid → World → Option ScenarioContext) (proposal actor : Uuid) where
  -- The test of `RunSnapshotV1.__post_init__` on the fields that may be empty.
  abbrev pub snapshot_is_whole : DraftProposal → ScenarioContext → Bool
  snapshot_is_whole p context =
      not (str_eq context.checksum_algorithm "")
      && not (str_eq context.checksum_schema_version "")
      && not (str_eq context.checksum_digest "")
      && not (p.resource_version == 0)

  abbrev pub snapshot_of :
      DraftProposal → ScenarioContext → Uuid → Uuid → Uuid → Uuid → Instant → RunSnapshot
  snapshot_of p context id version snapshot run at = record {
    snapshot_id = snapshot;
    schedule_run_id = run;
    scenario_version_id = context.scenario_version_id;
    proposal_id = id;
    proposal_version_id = version;
    preserved_locks = p.preserved_locks;
    accepted_at = at;
  }

  abbrev pub insert_snapshot :
      Instant → DraftProposal → ScenarioContext → Uuid → Uuid → Tx RunSnapshot
  insert_snapshot at p context id version = do
    snapshot ← uuid4
    run ← uuid4
    require (snapshot_is_whole p context) value_error
    create_queued_run (snapshot_of p context id version snapshot run at) context.site_id actor
    pure (snapshot_of p context id version snapshot run at)

  abbrev pub with_ids :
      Instant → DraftProposal → ScenarioContext → Option Uuid → Option Uuid → Tx RunSnapshot
  with_ids at p context (some id) (some version) = insert_snapshot at p context id version
  with_ids at p context _ _ = raise invalid_proposal

  abbrev pub is_fresh : DraftProposal → ScenarioContext → Bool
  is_fresh p context =
      p.scenario_version_id == context.scenario_version_id
      && same_version p.expected_baseline_schedule_version context.baseline_schedule_version

  abbrev pub with_context : Instant → DraftProposal → Option ScenarioContext → Tx RunSnapshot
  with_context at p none = raise scenario_unavailable
  with_context at p (some context) = do
    require (is_fresh p context) stale_proposal
    with_ids at p context p.proposal_id p.proposal_version_id

  abbrev pub with_scenario : Instant → DraftProposal → Option Uuid → Tx RunSnapshot
  with_scenario at p none = raise invalid_proposal
  with_scenario at p (some scenario) = do
    context ← gets (get_scenario_context scenario)
    with_context at p context

  abbrev pub snapshot_proposal : Instant → Option DraftProposal → Tx RunSnapshot
  snapshot_proposal at none = raise proposal_not_found
  snapshot_proposal at (some p) = do
    require (not (is_rejected p.state)) rejected_proposal
    require (not (is_applied p.state)) applied_proposal
    with_scenario at p p.scenario_id

  unfoldable pub create_run_snapshot : World → Instant → Tx RunSnapshot
  unfolding uuid4 create_queued_run
  create_run_snapshot before at = do
    p ← read before (gets (get_current proposal))
    snapshot_proposal at p

  -- The digest of the command's body, SITE_MAX_CONCURRENT_RUNS, and the rest of the command.
  module _ (contract_digest : Body → ℕ) (limit : ℕ) (site : Uuid) (version : ℕ)
      (key capability : String) where
    abbrev pub body_hash : ℕ
    body_hash = contract_digest (enqueue_body proposal version)

    abbrev pub replay : IdempotentResult → Tx EnqueueResult
    replay stored =
        if not (stored.body_hash == body_hash)
        then raise idempotency_key_conflict
        else reply_of stored.response_payload

    abbrev pub new_job : Uuid → Uuid → Instant → JobLease
    new_job job run at = record {
      job_id = job;
      status = queued;
      site_id = site;
      actor_id = actor;
      attempt_id = none;
      contract_version = "1";
      capability_version = some capability;
      schedule_run_id = run;
      idempotency_key = key;
      lease_owner = none;
      lease_expires_at = none;
      heartbeat_at = none;
      fencing_epoch = 0;
      cancellation_requested = false;
      created_at = at;
    }

    abbrev pub insert_job : Uuid → Uuid → Instant → Tx EnqueueResult
    insert_job job run at = do
      require (post_init (new_job job run at)) value_error
      enqueue_job (new_job job run at) site
      store_idempotent_result site actor (Ops.enqueue_compute proposal) key body_hash
          (enqueued (record { schedule_run_id = run; job_id = job }))
      pure (record { schedule_run_id = run; job_id = job })

    abbrev pub submit_job : Instant → RunSnapshot → Tx EnqueueResult
    submit_job at snapshot = do job ← uuid4; insert_job job snapshot.schedule_run_id at

    -- What follows the limit's check.
    abbrev pub submit : World → Tx EnqueueResult
    submit before = do
      at ← gets (λ w. w.clock)
      snapshot ← create_run_snapshot before at
      submit_job at snapshot

    -- The advisory lock holds other enqueues of the site until this one ends.
    abbrev pub admit : World → Tx EnqueueResult
    admit before = do
      active ← count_runs_with_statuses site non_terminal
      require (ltb active limit) site_concurrency_exhausted
      submit before

    abbrev pub with_draft : World → DraftProposal → Tx EnqueueResult
    with_draft before p = do
      require (not (is_rejected p.state)) rejected_proposal
      require (not (is_applied p.state)) applied_proposal
      require (p.resource_version == version) stale_resource_version
      admit before

    abbrev pub with_stored : World → DraftProposal → Option IdempotentResult → Tx EnqueueResult
    with_stored before p (some stored) = replay stored
    with_stored before p none = with_draft before p

    abbrev pub is_key : Bool
    is_key = not (str_eq key "") && leb (count key) max_idempotency_key_length

    abbrev pub with_key : World → DraftProposal → Tx EnqueueResult
    with_key before p = do
      stored ← read before (get_idempotent_result site actor (Ops.enqueue_compute proposal) key)
      with_stored before p stored

    abbrev pub with_proposal : World → Option DraftProposal → Tx EnqueueResult
    with_proposal before none = raise proposal_not_found
    with_proposal before (some p) = do require is_key enqueue_compute_error; with_key before p

    unfoldable pub enqueue_compute : World → Tx EnqueueResult
    unfolding create_run_snapshot uuid4 count_runs_with_statuses enqueue_job post_init
        get_idempotent_result store_idempotent_result
    enqueue_compute before = do
      p ← read before (gets (get_current proposal))
      with_proposal before p

    -- The command in its transaction.
    unfoldable pub enqueue_command : World → Tx EnqueueResult
    unfolding enqueue_compute transaction
    enqueue_command before = transaction (enqueue_compute before)
