-- ===== src/UseCases/Finalize.antt =====
-- `finalize_schedule_run`, called through `_FencedFinalizationRepository`, which adds the epoch and
-- the request's id.
use roster_ai.Base.{
  ℕ, String, not, ◌++◌, Option, none, some, if◌then◌else◌, str_eq, ◌⊎◌, inl, inr, List,
}
use roster_ai.Contracts.RunStatus.{
  RunStatus, status_eq, solver_cancelled, solver_failed, solver_infeasible, solver_timed_out,
  solver_completed,
}
use roster_ai.Contracts.JobLease.{Uuid}
use roster_ai.Contracts.Scheduling.{
  SolverOutcome, SolverStatus, infeasible, model_invalid, unknown, RunSnapshot, ValidationFacts,
  ConstraintResult, Candidate,
}
use roster_ai.Store.Tx.{Tx, Result, ok, raised, pure, raise, gets, ◌>>=◌, ◌>>◌}
use roster_ai.Repository.Rows.{uuid4}
use roster_ai.Repository.Transitions.{finalize_run}
use roster_ai.Scheduling.HardConstraints.{require_hard_constraints}

-- The part of `_terminal` after the tests of the reason.
abbrev by_solver_status : SolverStatus → RunStatus × Option String
by_solver_status infeasible = (solver_infeasible, some "model_infeasible")
by_solver_status model_invalid = (solver_failed, some "model_invalid")
by_solver_status unknown = (solver_timed_out, some "budget_exhausted")
by_solver_status _ = (solver_completed, none)

abbrev by_reason : Option String → SolverStatus → RunStatus × Option String
by_reason none s = by_solver_status s
by_reason (some r) s =
    if str_eq r "cancelled"
    then (solver_cancelled, some "cancelled")
    else if str_eq r "deterministic_budget_exhausted"
    then (solver_failed, some "budget_exhausted")
    else if not (str_eq r "")
    then (solver_failed, some r)
    else by_solver_status s

-- `_terminal`
unfoldable pub terminal : SolverOutcome → RunStatus × Option String
terminal outcome = by_reason outcome.reason outcome.solver_status

-- `FinalizedScheduleRunV1`
pub record FinalizedScheduleRun : Type 0 where
  pub status : RunStatus
  pub reason : Option String
  pub candidate : Option Candidate

-- `calculate_candidate_metrics`, by the soft results that it adds to a candidate, or its exception.
module _ (candidate_metrics : SolverOutcome → RunSnapshot → Result (List ConstraintResult)) where
  abbrev pub with_soft :
      RunSnapshot
      → SolverOutcome
      → List ConstraintResult
      → Result (List ConstraintResult)
      → Tx FinalizedScheduleRun
  with_soft snapshot outcome hard (raised e) = raise e
  with_soft snapshot outcome hard (ok soft) = do
    version ← uuid4
    created ← gets (λ w. w.clock)
    pure (record {
      status = solver_completed;
      reason = none;
      candidate = some (record {
        schedule_version_id = version;
        schedule_run_id = snapshot.schedule_run_id;
        feasible_solver_status = outcome.solver_status;
        assignments = outcome.assignments;
        constraint_results = hard ++ soft;
        scenario_version_id = snapshot.scenario_version_id;
        proposal_id = snapshot.proposal_id;
        proposal_version_id = snapshot.proposal_version_id;
        created_at = created;
      });
    })

  abbrev pub with_hard :
      RunSnapshot → SolverOutcome → List String ⊎ List ConstraintResult → Tx FinalizedScheduleRun
  with_hard snapshot outcome (inl failed) = pure (record {
    status = solver_failed;
    reason = some "hard_constraint_violated";
    candidate = none;
  })
  with_hard snapshot outcome (inr hard) =
      with_soft snapshot outcome hard (candidate_metrics outcome snapshot)

  abbrev pub with_facts :
      RunSnapshot → SolverOutcome → Option ValidationFacts → Tx FinalizedScheduleRun
  with_facts snapshot outcome none = pure (record {
    status = solver_failed;
    reason = some "validation_facts_missing";
    candidate = none;
  })
  with_facts snapshot outcome (some facts) =
      with_hard snapshot outcome
        (require_hard_constraints outcome.assignments facts snapshot.preserved_locks)

  -- The status, the reason and the candidate that are persisted.
  unfoldable pub judge : RunSnapshot → SolverOutcome → Tx FinalizedScheduleRun
  unfolding terminal require_hard_constraints uuid4
  judge snapshot outcome =
      if status_eq (terminal outcome).0 solver_completed
      then with_facts snapshot outcome outcome.validation_facts
      else pure (record {
        status = (terminal outcome).0;
        reason = (terminal outcome).1;
        candidate = none;
      })

  unfoldable pub finalize_schedule_run :
      RunSnapshot → SolverOutcome → Uuid → ℕ → Option Uuid → Tx FinalizedScheduleRun
  unfolding judge finalize_run
  finalize_schedule_run snapshot outcome site epoch request = do
    judged ← judge snapshot outcome
    now ← gets (λ w. w.clock)
    finalize_run snapshot.schedule_run_id site epoch judged.status judged.reason judged.candidate
        (some now) request
    pure judged
