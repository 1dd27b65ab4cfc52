-- ===== src/Contracts.antt =====
-- The contracts of backend/application/contracts that the other parts share.
pub mod RunStatus
pub mod JobLease
pub mod Scheduling
pub mod Approvals
pub mod Proposals
