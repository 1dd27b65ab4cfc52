-- ===== src/Tests/Runs.antt =====
-- Runs of the model at concrete stores: one run with its job, two workers, a cancellation.
use roster_ai.Base.{◌≡◌, refl, true, false, none, some, List, [], ◌∷◌, arith, All}
use mathlib.Core.Option
use roster_ai.Base.Table.{select_one, update, count}
use roster_ai.Contracts.RunStatus.{solver_queued, solver_failed, is_terminal}
use roster_ai.Contracts.JobLease.{JobLease, queued, leased, post_init}
use roster_ai.Contracts.Scheduling.{RunSnapshot}
use roster_ai.Store.{World, ScheduleRun, PersistedEvent}
use roster_ai.Store.Tx.{ok, transaction}
use roster_ai.Repository.Rows.{uuid4, or_uuid4, update_jobs, update_run, run_row}
use roster_ai.Repository.Jobs.{lease_next_job, first_leasable, complete_job, fail_job}
use roster_ai.Repository.Transitions.{
  mark_running, finalize_run, queued_run, fenced_update, record_transition,
}
use roster_ai.Repository.Progress.{write_progress_event, max_sequence, actor_for_run}
use roster_ai.Repository.Fence.{claim_epoch}
use roster_ai.Lifecycle.JobMoves.{HasUniqueJobs}
use roster_ai.Lifecycle.Calls.{Call, lease, tick, mark, create, cancel_now, performs, perform}
use roster_ai.Lifecycle.Takeover.{
  IsRefused, mark_running-after_takeover, finalize_run-after_takeover, end_job-after_takeover,
}
use roster_ai.Lifecycle.History.{Later, performs-Later}
use roster_ai.Lifecycle.Consistency.{IsConsistent, performs-IsConsistent}
use roster_ai.Lifecycle.JobCalls.{performs-HasUniqueJobs}
use roster_ai.Lifecycle.HandOut.{
  IsLeasable, IsHeld, IsHandedOut, lease_next_job-IsHandedOut, lease_next_job-none,
}
use roster_ai.Lifecycle.Streams.{stream}

abbrev pub empty_store : World
empty_store = record {
  schedule_run = [];
  job_queue = [];
  persisted_event = [];
  command_idempotency = [];
  run_snapshot = [];
  schedule_version = [];
  schedule_assignment = [];
  approval_request = [];
  site_baseline = [];
  audit_event = [];
  agent_run = [];
  conversation = [];
  conversation_event = [];
  membership = [];
  proposal = [];
  now = 100;
  clock = 100;
  next_uuid = 1000;
  locked = [];
}

abbrev pub snapshot : RunSnapshot
snapshot = record {
  snapshot_id = 5;
  schedule_run_id = 10;
  scenario_version_id = 3;
  proposal_id = 30;
  proposal_version_id = 31;
  preserved_locks = [];
  accepted_at = 90;
}

abbrev pub queued_job : JobLease
queued_job = record {
  job_id = 20;
  status = queued;
  site_id = 1;
  actor_id = 2;
  attempt_id = none;
  contract_version = "job-lease-v1";
  capability_version = none;
  schedule_run_id = 10;
  idempotency_key = "k";
  lease_owner = none;
  lease_expires_at = none;
  heartbeat_at = none;
  fencing_epoch = 0;
  cancellation_requested = false;
  created_at = 95;
}

abbrev pub run_one : ScheduleRun
run_one = queued_run snapshot 1

abbrev opening : PersistedEvent
opening = record {
  site_id = 1;
  stream_id = 10;
  sequence = 1;
  event_type = "run.queued.v1";
  occurred_at = 100;
  resource_version = 1;
  request_id = 998;
  actor_id = 2;
  activity_id = 999;
  status = solver_queued;
  reason = none;
}

abbrev queued_store : World
queued_store = record empty_store {
  schedule_run = run_one ∷ [];
  job_queue = queued_job ∷ [];
  persisted_event = opening ∷ [];
}

abbrev leased_job : JobLease
leased_job = record queued_job {
  status = leased;
  attempt_id = some 1000;
  lease_owner = some "w1";
  lease_expires_at = some 160;
  heartbeat_at = some 100;
  fencing_epoch = 1;
}

abbrev leased_store : World
leased_store = record queued_store { job_queue = leased_job ∷ []; next_uuid = 1001 }

leasing : lease_next_job "w1" 60 queued_store ≡ (ok (some leased_job), leased_store)
unfolding lease_next_job first_leasable uuid4 update post_init
leasing = refl

unique_job : HasUniqueJobs queued_store.job_queue
unfolding count
unique_job = record { jobs = (refl, tt); runs = (refl, tt) }

abbrev later_calls : List Call
later_calls = tick 200 200 ∷ lease "w2" 60 ∷ mark 10 1 2 none ∷ []

mark_running-after_takeover_example :
    IsRefused (mark_running 10 1 0 none) (performs later_calls leased_store)
mark_running-after_takeover_example =
    mark_running-after_takeover "w1" 60 queued_store later_calls 0 none unique_job leasing
      (omega arith)

terminal_failed : is_terminal solver_failed ≡ true
unfolding is_terminal
terminal_failed = refl

finalize_run-after_takeover_example :
    IsRefused
      (finalize_run 10 1 0 solver_failed (some "late") none none none)
      (performs later_calls leased_store)
finalize_run-after_takeover_example =
    finalize_run-after_takeover "w1" 60 queued_store later_calls 0 solver_failed (some "late") none
      none none terminal_failed unique_job leasing (omega arith)

end_job-after_takeover_example :
    IsRefused (complete_job 20 1 0) (performs later_calls leased_store)
    × IsRefused (fail_job 20 1 0) (performs later_calls leased_store)
end_job-after_takeover_example =
    end_job-after_takeover "w1" 60 queued_store later_calls 0 unique_job leasing (omega arith)

abbrev run_calls : List Call
run_calls = lease "w1" 60 ∷ mark 10 1 1 none ∷ []

run_found : run_row 10 1 queued_store ≡ some run_one
unfolding select_one
run_found = refl

performs-Later_example : Later 10 1 run_one (performs run_calls queued_store)
performs-Later_example = performs-Later run_calls 10 1 queued_store run_found

performs-HasUniqueJobs_example : HasUniqueJobs (performs run_calls queued_store).job_queue
performs-HasUniqueJobs_example = performs-HasUniqueJobs run_calls queued_store unique_job

-- The older job is locked by another session, and the lease of the younger has run out.
abbrev lapsed_job : JobLease
lapsed_job = record leased_job {
  job_id = 21;
  schedule_run_id = 11;
  created_at = 96;
  lease_expires_at = some 99;
  fencing_epoch = 3;
}

abbrev locked_store : World
locked_store = record queued_store { job_queue = queued_job ∷ lapsed_job ∷ []; locked = 20 ∷ [] }

abbrev taken_over : JobLease
taken_over = record lapsed_job {
  lease_owner = some "w2";
  lease_expires_at = some 160;
  fencing_epoch = 4;
}

abbrev taken_store : World
taken_store = record locked_store { job_queue = queued_job ∷ taken_over ∷ []; next_uuid = 1001 }

taking : lease_next_job "w2" 60 locked_store ≡ (ok (some taken_over), taken_store)
unfolding lease_next_job first_leasable uuid4 update post_init
taking = refl

two_jobs : HasUniqueJobs locked_store.job_queue
unfolding count
two_jobs = record { jobs = (refl, (refl, tt)); runs = (refl, (refl, tt)) }

lease_next_job-IsHandedOut_example : IsHandedOut "w2" 60 locked_store taken_over
lease_next_job-IsHandedOut_example = lease_next_job-IsHandedOut "w2" 60 locked_store two_jobs taking

abbrev busy_store : World
busy_store = record queued_store { locked = 20 ∷ [] }

no_lease : lease_next_job "w2" 60 busy_store ≡ (ok none, busy_store)
unfolding lease_next_job first_leasable
no_lease = refl

lease_next_job-none_example :
    All (λ k. IsLeasable 100 k → IsHeld busy_store k) (queued_job ∷ []) × (busy_store ≡ busy_store)
lease_next_job-none_example = lease_next_job-none "w2" 60 busy_store no_lease

pub empty-IsConsistent : IsConsistent empty_store
unfolding select_one stream
empty-IsConsistent = record { unique = tt; history = λ run r h. cc; unopened = λ run h. refl }

abbrev opening_calls : List Call
opening_calls = create snapshot 1 2 ∷ cancel_now 10 1 2 1 ∷ []

performs-IsConsistent_example : IsConsistent (performs opening_calls empty_store)
performs-IsConsistent_example = performs-IsConsistent opening_calls empty_store empty-IsConsistent

-- After the lease and the start, the run is at version 2.
run_goes :
    Option.map
      (λ (r : ScheduleRun). r.resource_version)
      (run_row 10 1 (performs run_calls queued_store))
    ≡ some 2
unfolding performs perform transaction lease_next_job first_leasable uuid4 update post_init
    mark_running select_one claim_epoch fenced_update update_jobs update_run record_transition
    actor_for_run or_uuid4 write_progress_event max_sequence count
run_goes = refl
