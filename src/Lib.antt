-- ===== src/Lib.antt =====
-- The schedule runs of ShiftMind (the roster-ai repository): how a run is queued, leased to a
-- worker, started, cancelled and finalized, and which schedules may be persisted as candidates.
--
-- Parts and files. The Python code is a hexagon: use cases (backend/application/use_cases) call a
-- repository (backend/adapters/postgres/schedule_run.py) inside transactions of PostgreSQL.
-- Contracts has the types of backend/application/contracts that the parts share. Store has the
-- rows of backend/adapters/postgres/schema.py as a record of tables, World, and Store/Tx the
-- transactions: a block reads and writes the World and may raise, and an exception that leaves it
-- rolls back. Repository has one function for each method of PostgresScheduleRunRepository that
-- writes, named as the method is, and Repository/Jobs the SQL functions workflow.lease_next_job
-- and workflow.renew_job_lease of the migration a2b3c4d5e6f7. Lifecycle runs them: a Call is one
-- committed transaction of one method, and performs runs a list of calls, so each interleaving of
-- the committed writes of runs, jobs and replies is a list. Scheduling has
-- backend/application/scheduling/hard_constraints.py and UseCases the commands
-- finalize_schedule_run.py, cancel_schedule_run.py, execute_schedule_run.py, the worker of
-- lease_and_execute_schedule_run.py, enqueue_compute.py and create_run_snapshot.py. Approvals has
-- the use cases request_approval.py, decide_approval.py and promote_baseline.py, with their
-- repositories (approval.py, site_baseline.py, audit.py, conversation.py) and the decision route
-- of backend/api/routers/approvals.py. Grounding has the bounded drain of
-- backend/application/grounding/pagination.py and the parser of placeholders.py. Tests has runs
-- at concrete stores.
--
-- State. A table is the list of its rows, UPDATE and SELECT are Base/Table's update and
-- select_one, and a constraint is a check at the insert or the update. The references of a
-- version to scenarios and proposals, which are outside the model, are not checked. UUIDs and
-- instants are numbers, uuid4() counts up, and each World has the database's clock and the
-- application's, and the rows of the job queue that other sessions hold locked, which
-- lease_next_job passes over. Statuses are data types, so a value outside the closed set does not
-- occur.
--
-- Bounds. The drain runs on the pages left of MAX_PAGES, as its for loop does, and refuses at 0;
-- every other loop runs over a list. Minutes and versions are natural numbers, as the columns'
-- checks have them. The hours of a weekly cap are exact fractions, where the source has floats,
-- and rounding is left out. Where the source subtracts, the model adds on the other side or takes
-- the difference that stops at 0 where the source takes max(0, ...).
--
-- Parameters. The digest of a command's body and of an approval's signed facts (contract_digest,
-- a hash), the digest of a policy, the validation of a stored agent payload, the metrics of a
-- candidate (calculate_candidate_metrics), the scheduler and the two reading ports of an enqueue
-- are arguments of the definitions that use them. What other sessions commit between the reads
-- and the writes of a command is an argument too: a list of calls, or the store that the reads
-- saw.
--
-- Not modelled: the solver's search and its settings, the evidence references and hashes of a
-- snapshot, the HTTP API but for the decision of an approval, the agent and its tools, the turn
-- that resumes after a decision, the contexts that describe a refusal, telemetry, the reads that
-- only list rows, the waits for row locks (sessions run one after another, and a statement sees
-- what was committed before it), the drafts' lifecycle and the rest of grounding.
mod Base
pub mod Contracts
pub mod Store
pub mod Repository
pub mod Lifecycle
pub mod Scheduling
pub mod UseCases
pub mod Approvals
pub mod Grounding
pub mod Tests
