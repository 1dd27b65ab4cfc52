-- ===== src/Contracts/Scheduling.antt =====
-- Solver facts and results: backend/application/contracts/scenario_projection.py,
-- schedule_version.py and run_snapshot.py. Identifiers that are text are `String`, UUIDs numbers.
-- Minutes are whole numbers from the scenario's start.
use roster_ai.Base.{ℕ, String, Bool, Option, List}
use roster_ai.Contracts.JobLease.{Uuid, Instant}

pub record Assignment : Type 0 where
  pub record_id : String
  pub worker_id : String
  pub task_id : String
  pub shift_id : Option String
  pub start_minute : ℕ
  pub end_minute : ℕ
  pub lock_ref : Option String

pub record Lock : Type 0 where
  pub record_id : String
  pub target_type : String
  pub target_ref : String

-- `WorkerSchedulingFactV1`; of a qualification the checks read its task
pub record WorkerFact : Type 0 where
  pub worker_id : String
  pub employment_type : String
  pub qualified_tasks : List String

pub record SelectedShift : Type 0 where
  pub shift_id : String
  pub worker_id : String
  pub window_id : String
  pub start_minute : ℕ
  pub end_minute : ℕ
  pub effective_minutes : ℕ

-- A Python `float` that is not negative: `numerator / (below + 1)`. The arithmetic on them is exact.
pub record Fraction : Type 0 where
  pub numerator : ℕ
  pub below : ℕ

pub record ValidationFacts : Type 0 where
  pub workers : List WorkerFact
  pub selected_shifts : List SelectedShift
  pub max_hours_per_week : List (String × Fraction)
  pub max_shifts_per_day : List (String × ℕ)
  pub minimum_gap_minutes : ℕ

-- `ConstraintResultV1` of a hard constraint
pub record ConstraintResult : Type 0 where
  pub constraint_type : String
  pub satisfied : Bool
  pub measured_value : Fraction
  pub limit : ℕ
  pub unit : String
  pub contributing_assignment_ids : List String

pub data SolverStatus : Type 0 where
  optimal feasible infeasible model_invalid unknown : SolverStatus

-- `SolverOutcomeV1`, the fields that finalization reads
pub record SolverOutcome : Type 0 where
  pub solver_status : SolverStatus
  pub assignments : List Assignment
  pub validation_facts : Option ValidationFacts
  pub reason : Option String

-- `ScheduleVersionV1`, with the fields that finalization derives
pub record Candidate : Type 0 where
  pub schedule_version_id : Uuid
  pub schedule_run_id : Uuid
  pub feasible_solver_status : SolverStatus
  pub assignments : List Assignment
  pub constraint_results : List ConstraintResult
  pub scenario_version_id : Uuid
  pub proposal_id : Uuid
  pub proposal_version_id : Uuid
  pub created_at : Instant

-- `RunSnapshotV1`, the fields that the run lifecycle reads
pub record RunSnapshot : Type 0 where
  pub snapshot_id : Uuid
  pub schedule_run_id : Uuid
  pub scenario_version_id : Uuid
  pub proposal_id : Uuid
  pub proposal_version_id : Uuid
  pub preserved_locks : List Lock
  pub accepted_at : Instant
