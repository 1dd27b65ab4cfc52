-- ===== src/Tests/Schedules.antt =====
-- A small schedule that passes the hard constraints, its finalization, and a cancellation.
use Prim.Native.String.{count as characters}
use roster_ai.Base.{
  ◌≤◌, ℕ, ◌≡◌, refl, true, false, none, some, List, [], ◌∷◌, ◌++◌, ◌+◌, ◌*◌, ◌≢◌, eq_iff, inl, inr,
  String, arith,
}
use roster_ai.Base.Table.{select_one, update, count}
use roster_ai.Contracts.RunStatus.{
  solver_running, solver_completed, is_terminal, cancellation_requested, finalize_expected,
}
use roster_ai.Contracts.JobLease.{JobLease, leased}
use roster_ai.Contracts.Scheduling.{
  RunSnapshot, Lock, Assignment, ValidationFacts, SelectedShift, SolverOutcome, optimal,
  ConstraintResult, Candidate,
}
use roster_ai.Store.{
  World, ScheduleRun, cancel_body, Body, enqueue_body, decision_body, Cancellation,
}
use roster_ai.Store.Tx.{Result, ok, transaction}
use roster_ai.Repository.Rows.{run_row, uuid4, get_run_state, or_uuid4, update_jobs, update_run}
use roster_ai.Repository.Fence.{claim_epoch}
use roster_ai.Repository.Progress.{write_progress_event, max_sequence, actor_for_run}
use roster_ai.Repository.Transitions.{
  cancel_transition, request_cancellation, finalize_run, fenced_update, record_transition,
}
use roster_ai.Repository.Jobs.{set_job_cancellation_requested, get_job_cancellation_requested}
use roster_ai.Repository.Idempotency.{get_idempotent_result, store_idempotent_result}
use roster_ai.Lifecycle.Calls.{lease, tick, performs, perform}
use roster_ai.Lifecycle.Inserts.{no_text, short, HasShortTexts, CanInsert, with_candidate}
use roster_ai.Lifecycle.Ends.{CanEnd, finalize_run-returns}
use roster_ai.Scheduling.Groups.{group_by}
use roster_ai.Scheduling.Sorting.{sorted}
use roster_ai.Scheduling.HardConstraints.{validate_hard_constraints, require_hard_constraints}
use roster_ai.Scheduling.Rules.{IsAdmissible}
use roster_ai.Scheduling.Sound.{require_hard_constraints-IsAdmissible}
use roster_ai.UseCases.Finalize.{terminal, judge, finalize_schedule_run, FinalizedScheduleRun}
use roster_ai.UseCases.Candidates.{IsPersisted, finalize_schedule_run-IsPersisted}
use roster_ai.UseCases.Cancel.{cancel_command, cancel_schedule_run}
use roster_ai.UseCases.Replay.{own_request}
use roster_ai.UseCases.Effects.{HasCancelled, cancel_command-HasCancelled}
use roster_ai.UseCases.Answers.{cancel_command-replays}

abbrev morning : SelectedShift
morning = record {
  shift_id = "s1";
  worker_id = "ann";
  window_id = "w1";
  start_minute = 480;
  end_minute = 960;
  effective_minutes = 450;
}

abbrev facts : ValidationFacts
facts = record {
  workers =
      record { worker_id = "ann"; employment_type = "full"; qualified_tasks = "till" ∷ [] } ∷ [];
  selected_shifts = morning ∷ [];
  max_hours_per_week = ("full", record { numerator = 15; below = 1 }) ∷ [];
  max_shifts_per_day = ("full", 1) ∷ [];
  minimum_gap_minutes = 600;
}

abbrev serve : String → ℕ → ℕ → Assignment
serve name start end = record {
  record_id = name;
  worker_id = "ann";
  task_id = "till";
  shift_id = some "s1";
  start_minute = start;
  end_minute = end;
  lock_ref = none;
}

abbrev plan : List Assignment
plan = serve "a2" 720 960 ∷ serve "a1" 480 720 ∷ []

abbrev keep_ann : List Lock
keep_ann = record { record_id = "l1"; target_type = "worker_shift"; target_ref = "ann:s1" } ∷ []

abbrev checks : List ConstraintResult
checks = validate_hard_constraints plan facts keep_ann

passes : require_hard_constraints plan facts keep_ann ≡ inr checks
unfolding require_hard_constraints validate_hard_constraints group_by sorted
passes = refl

require_hard_constraints-IsAdmissible_example : IsAdmissible plan facts keep_ann
require_hard_constraints-IsAdmissible_example =
    require_hard_constraints-IsAdmissible plan facts keep_ann passes

abbrev snapshot : RunSnapshot
snapshot = record {
  snapshot_id = 5;
  schedule_run_id = 10;
  scenario_version_id = 3;
  proposal_id = 30;
  proposal_version_id = 31;
  preserved_locks = keep_ann;
  accepted_at = 90;
}

abbrev solved : SolverOutcome
solved = record {
  solver_status = optimal;
  assignments = plan;
  validation_facts = some facts;
  reason = none;
}

abbrev leased_job : JobLease
leased_job = record {
  job_id = 20;
  status = leased;
  site_id = 1;
  actor_id = 2;
  attempt_id = some 999;
  contract_version = "job-lease-v1";
  capability_version = none;
  schedule_run_id = 10;
  idempotency_key = "k";
  lease_owner = some "w1";
  lease_expires_at = some 160;
  heartbeat_at = some 100;
  fencing_epoch = 1;
  cancellation_requested = false;
  created_at = 95;
}

abbrev running_run : ScheduleRun
running_run = record {
  id = 10;
  site_id = 1;
  run_snapshot_id = 5;
  status = solver_running;
  reason = none;
  candidate_schedule_version_id = none;
  resource_version = 2;
  finished_at = none;
}

abbrev running_store : World
running_store = record {
  schedule_run = running_run ∷ [];
  job_queue = leased_job ∷ [];
  persisted_event = [];
  command_idempotency = [];
  run_snapshot = [];
  schedule_version = [];
  schedule_assignment = [];
  approval_request = [];
  site_baseline = [];
  audit_event = [];
  agent_run = [];
  conversation = [];
  conversation_event = [];
  membership = [];
  proposal = [];
  now = 100;
  clock = 101;
  next_uuid = 1000;
  locked = [];
}

abbrev no_metrics : SolverOutcome → RunSnapshot → Result (List ConstraintResult)
no_metrics outcome s = ok []

abbrev finalized : FinalizedScheduleRun
finalized = record {
  status = solver_completed;
  reason = none;
  candidate = some (record {
    schedule_version_id = 1000;
    schedule_run_id = 10;
    feasible_solver_status = optimal;
    assignments = plan;
    constraint_results = checks ++ [];
    scenario_version_id = 3;
    proposal_id = 30;
    proposal_version_id = 31;
    created_at = 101;
  });
}

abbrev finalized_store : World
finalized_store = (finalize_schedule_run no_metrics snapshot solved 1 1 (some 999) running_store).1

finalizing :
    finalize_schedule_run no_metrics snapshot solved 1 1 (some 999) running_store
    ≡ (ok finalized, finalized_store)
unfolding finalize_schedule_run judge terminal require_hard_constraints validate_hard_constraints
    group_by sorted uuid4 finalize_run is_terminal claim_epoch update_jobs count update update_run
    fenced_update select_one finalize_expected record_transition actor_for_run or_uuid4
    write_progress_event max_sequence
finalizing = refl

finalize_schedule_run-IsPersisted_example :
    IsPersisted snapshot solved 1 running_store finalized_store finalized
finalize_schedule_run-IsPersisted_example =
    finalize_schedule_run-IsPersisted no_metrics snapshot solved 1 1 (some 999) running_store
      finalizing

abbrev digest : Body → ℕ
digest (cancel_body run version) = 2 * run + version
digest (enqueue_body proposal version) = 3 * proposal + version
digest (decision_body approve version) = version

abbrev answer : Cancellation
answer = record {
  schedule_run_id = 10;
  status = cancellation_requested;
  reason = "cancellation_requested";
  resource_version = 3;
  cancellation_requested = true;
}

abbrev cancelled_store : World
cancelled_store = (cancel_command digest 10 1 2 2 "key-1" (tick 110 110 ∷ []) running_store).1

cancelling :
    cancel_command digest 10 1 2 2 "key-1" (tick 110 110 ∷ []) running_store
    ≡ (ok (some answer), cancelled_store)
unfolding cancel_command cancel_schedule_run performs perform transaction get_run_state
    get_idempotent_result store_idempotent_result set_job_cancellation_requested
    get_job_cancellation_requested request_cancellation cancel_transition update_run update
    select_one uuid4 write_progress_event max_sequence
cancelling = refl

nothing_between :
    select_one
      (own_request digest 10 1 2 2 "key-1")
      (performs (tick 110 110 ∷ []) running_store).command_idempotency
    ≡ select_one (own_request digest 10 1 2 2 "key-1") running_store.command_idempotency
unfolding performs perform select_one
nothing_between = refl

cancel_command-replays_example :
    cancel_command digest 10 1 2 2 "key-1"
      (tick 300 300 ∷ [])
      (performs (lease "w2" 60 ∷ []) cancelled_store)
    ≡ (
      ok (some answer),
      performs (tick 300 300 ∷ []) (performs (lease "w2" 60 ∷ []) cancelled_store),
    )
cancel_command-replays_example =
    cancel_command-replays digest 10 1 2 2 "key-1" (tick 110 110 ∷ []) running_store nothing_between
      cancelling (lease "w2" 60 ∷ []) (tick 300 300 ∷ [])

held_run : CanEnd 10 1 1 solver_completed running_store
unfolding is_terminal finalize_expected count select_one
held_run = record { terminal = refl; held = refl; row = running_run; found = refl; expected = refl }

abbrev first_version : Candidate
first_version = record {
  schedule_version_id = 900;
  schedule_run_id = 10;
  feasible_solver_status = optimal;
  assignments = plan;
  constraint_results = [];
  scenario_version_id = 3;
  proposal_id = 30;
  proposal_version_id = 31;
  created_at = 101;
}

names_differ : ◌≢◌ {A = String} "a1" "a2"
names_differ e = let same = (eq_iff "a1" "a2").1 e in cc same

short_texts :
    (name : String) (start end : ℕ) → characters name ≤ 200 → HasShortTexts (serve name start end)
short_texts name start end h = record {
  short_record = h;
  short_worker = omega arith;
  short_task = omega arith;
  short_shift = short (omega arith);
  short_lock = no_text;
}

first-CanInsert : CanInsert 10 solver_completed running_store first_version
first-CanInsert = record {
  completed = refl;
  solved = inl refl;
  new_version = tt;
  new_rows = tt;
  intervals = ground arith;
  texts = (short_texts "a2" 720 960 (omega arith), (short_texts "a1" 480 720 (omega arith), tt));
  distinct = ((names_differ, tt), (tt, tt));
}

finalize_run-returns_example :
    (finalize_run 10 1 1 solver_completed none (some first_version) none none running_store).0
    ≡ ok tt
finalize_run-returns_example =
    finalize_run-returns 10 1 1 solver_completed none (some first_version) none none running_store
      held_run no_text (with_candidate first-CanInsert)

running_found : run_row 10 1 running_store ≡ some running_run
unfolding select_one
running_found = refl

no_reply : select_one (own_request digest 10 1 2 2 "key-1") running_store.command_idempotency ≡ none
unfolding select_one
no_reply = refl

cancel_command-HasCancelled_example : HasCancelled digest 10 1 2 2 "key-1" running_store running_run
cancel_command-HasCancelled_example =
    cancel_command-HasCancelled digest 10 1 2 2 "key-1" running_store running_run refl running_found
      refl refl no_reply
