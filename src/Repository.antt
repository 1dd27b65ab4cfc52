-- ===== src/Repository.antt =====
-- `PostgresScheduleRunRepository` (backend/adapters/postgres/schedule_run.py) and the SQL functions
-- of the job queue that it calls. A statement that names a row by its key is `select_one` or
-- `update` with the key's test: the primary keys and the unique keys let one row at most fit.
pub mod Rows
pub mod Progress
pub mod Fence
pub mod Transitions
pub mod Jobs
pub mod Idempotency
