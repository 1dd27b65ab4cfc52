-- ===== src/Tests/Enqueues.antt =====
-- A proposal that is enqueued at an empty site.
use roster_ai.Base.{ℕ, ◌≤◌, ◌≡◌, refl, Option, none, some, [], ◌∷◌, max}
use roster_ai.Base.Table.{select_one, count}
use roster_ai.Repository.Progress.{write_progress_event}
use roster_ai.Contracts.JobLease.{Uuid}
use roster_ai.Contracts.Proposals.{DraftProposal, ScenarioContext, active}
use roster_ai.Store.{World, Body}
use roster_ai.Store.Tx.{Tx-eq-ok, ok}
use roster_ai.UseCases.Enqueue.{enqueue_command}
use roster_ai.Lifecycle.ActiveRuns as Runs
use roster_ai.UseCases.Capacity.{enqueue_command-active}
use roster_ai.UseCases.Resubmitted.{enqueue_command-replays}
use roster_ai.Lifecycle.Calls.{lease, performs}
use roster_ai.Tests.Runs.{empty_store}

abbrev get_current : Uuid → World → Option DraftProposal
get_current id w = some (record {
  proposal_id = some id;
  proposal_version_id = some 31;
  state = active;
  scenario_id = some 2;
  scenario_version_id = 3;
  expected_baseline_schedule_version = none;
  resource_version = 1;
  preserved_locks = [];
})

abbrev get_scenario_context : Uuid → World → Option ScenarioContext
get_scenario_context id w = some (record {
  site_id = 1;
  scenario_version_id = 3;
  baseline_schedule_version = none;
  checksum_algorithm = "sha256";
  checksum_schema_version = "1";
  checksum_digest = "d";
})

abbrev digest : Body → ℕ
digest b = 7

-- The ids are drawn in the order snapshot, run, event's request and activity, job.
first_enqueue :
    (enqueue_command get_current get_scenario_context 30 4 digest 2 1 1 "key" "1" empty_store
      empty_store).0
    ≡ ok (record { schedule_run_id = 1001; job_id = 1004 })
unfolding enqueue_command select_one count write_progress_event
first_enqueue = refl

enqueue_command-active_example :
    Runs.active 1
      (enqueue_command get_current get_scenario_context 30 4 digest 2 1 1 "key" "1" empty_store
        empty_store).1
    ≤ max (Runs.active 1 empty_store) 2
enqueue_command-active_example =
    enqueue_command-active get_current get_scenario_context 30 4 1 digest 2 1 "key" "1" empty_store
      empty_store

abbrev submitted : World
submitted =
    (enqueue_command get_current get_scenario_context 30 4 digest 2 1 1 "key" "1" empty_store
      empty_store).1

-- The worker leases the job, and the command is sent again.
enqueue_command-replays_example :
    enqueue_command get_current get_scenario_context 30 4 digest 2 1 1 "key" "1"
      (performs (lease "w1" 60 ∷ []) submitted)
      submitted
    ≡ (ok (record { schedule_run_id = 1001; job_id = 1004 }), submitted)
enqueue_command-replays_example =
    enqueue_command-replays get_current get_scenario_context 30 4 digest 2 1 1 "key" "1" empty_store
      empty_store (lease "w1" 60 ∷ []) submitted refl (Tx-eq-ok first_enqueue refl) refl
