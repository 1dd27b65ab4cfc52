-- ===== src/UseCases.antt =====
-- The commands of backend/application/use_cases over the repository.
pub mod Sessions
pub mod Cancel
pub mod Enqueue
pub mod Capacity
pub mod Enqueued
pub mod Resubmitted
pub mod Finalize
pub mod Worker
pub mod Commits
pub mod StepCalls
pub mod WorkerCalls
pub mod Settled
pub mod WorkerEnds
pub mod WorkerOutcomes
pub mod WorkerRecovery
pub mod Replies
pub mod Candidates
pub mod Replay
pub mod Answers
pub mod Effects
