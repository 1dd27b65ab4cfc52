-- ===== src/Tests/Workers.antt =====
-- A worker at a concrete store: it leases the job of a queued run, the solver finds nothing in its
-- budget, and the run times out.
use mathlib.Core.Option
use roster_ai.Base.{Option, ◌≡◌, refl, sym, ap, none, some, List, [], ◌∷◌}
use roster_ai.Base.Table.{select_one, update, count}
use roster_ai.Contracts.RunStatus.{solver_timed_out, is_terminal, finalize_expected}
use roster_ai.Contracts.JobLease.{JobLease, leased, post_init}
use roster_ai.Contracts.Scheduling.{RunSnapshot, SolverOutcome, unknown, ConstraintResult}
use roster_ai.Store.Tx.{ok, Result, transaction, Tx-eq-ok}
use roster_ai.Repository.Rows.{
  uuid4, or_uuid4, update_jobs, update_run, load_snapshot, get_run_state,
}
use roster_ai.Repository.Jobs.{lease_next_job, first_leasable, complete_job, end_job, enqueue_job}
use roster_ai.Repository.Transitions.{
  mark_running, finalize_run, fenced_update, record_transition, create_queued_run,
}
use roster_ai.Repository.Progress.{write_progress_event, max_sequence, actor_for_run}
use roster_ai.Repository.Fence.{claim_epoch}
use roster_ai.Lifecycle.Calls.{Call, lease, create, enqueue, performs, perform}
use roster_ai.Lifecycle.Consistency.{performs-IsConsistent}
use roster_ai.Lifecycle.JobCalls.{performs-HasUniqueJobs}
use roster_ai.UseCases.Sessions.{session, elsewhere}
use roster_ai.UseCases.Finalize.{terminal, judge, finalize_schedule_run}
use roster_ai.UseCases.Worker.{
  Solved, outcome, Interleaving, LeaseOutcome, transaction_a, transaction_b, execute_schedule_run,
  execute_leased, work_on,
}
use roster_ai.UseCases.WorkerRecovery.{IsOutcome, work_on-IsOutcome}
use roster_ai.UseCases.Settled.{IsSound}
use roster_ai.Tests.Runs.{empty_store, empty-IsConsistent, snapshot, queued_job}

abbrev alone : Interleaving
alone = record {
  before_a = [];
  in_a = [];
  in_second_round = [];
  before_b = [];
  in_b = [];
  before_recovery = [];
  in_recovery = [];
}

abbrev no_metrics : SolverOutcome → RunSnapshot → Result (List ConstraintResult)
no_metrics o s = ok []

abbrev out_of_budget : RunSnapshot → Solved
out_of_budget s = outcome (record {
  solver_status = unknown;
  assignments = List.[];
  validation_facts = none;
  reason = none;
})

abbrev opening : List Call
opening = create snapshot 1 2 ∷ enqueue queued_job 1 ∷ lease "w1" 60 ∷ []

opened-IsSound : IsSound (performs opening empty_store)
opened-IsSound = record {
  consistent = performs-IsConsistent opening empty_store empty-IsConsistent;
  jobs = performs-HasUniqueJobs opening empty_store (record { jobs = tt; runs = tt });
}

-- What `lease_next_job` handed out.
abbrev held : JobLease
held = record queued_job {
  status = leased;
  attempt_id = some 1002;
  lease_owner = some "w1";
  lease_expires_at = some 160;
  heartbeat_at = some 100;
  fencing_epoch = 1;
}

abbrev timed_out : LeaseOutcome
timed_out = record {
  job_id = 20;
  attempt_id = some 1002;
  schedule_run_id = 10;
  status = solver_timed_out;
}

times_out :
    (work_on no_metrics out_of_budget alone 60 (some held) (performs opening empty_store)).0
    ≡ ok (some timed_out)
unfolding performs perform transaction create_queued_run enqueue_job lease_next_job first_leasable
    uuid4 update post_init mark_running select_one claim_epoch fenced_update update_jobs update_run
    record_transition actor_for_run or_uuid4 write_progress_event max_sequence count session
    elsewhere transaction_a transaction_b execute_schedule_run execute_leased load_snapshot
    get_run_state finalize_schedule_run judge terminal finalize_run is_terminal finalize_expected
    complete_job end_job Option.bind
times_out = refl

own_snapshot :
    (s : RunSnapshot)
    → (load_snapshot 10 1 (performs [] (performs opening empty_store))).0 ≡ ok (some s)
    → s.schedule_run_id ≡ 10
unfolding load_snapshot performs perform transaction create_queued_run enqueue_job lease_next_job
    first_leasable uuid4 update post_init select_one write_progress_event max_sequence Option.bind
own_snapshot s h =
    let told : ◌≡◌ {A = Result (Option RunSnapshot)} (ok (some snapshot)) (ok (some s)) = h in
    let same : snapshot ≡ s = cc told in ap (λ (x : RunSnapshot). x.schedule_run_id) (sym same)

work_on-IsOutcome_example :
    IsOutcome timed_out
      (work_on no_metrics out_of_budget alone 60 (some held) (performs opening empty_store)).1
work_on-IsOutcome_example =
    work_on-IsOutcome no_metrics out_of_budget alone 60 held (performs opening empty_store)
      opened-IsSound own_snapshot (Tx-eq-ok times_out refl)
