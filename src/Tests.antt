-- ===== src/Tests.antt =====
-- Runs of the model at concrete stores and schedules.
pub mod Runs
pub mod Workers
pub mod Approvals
pub mod Schedules
pub mod Enqueues
pub mod Pages
pub mod Answers
