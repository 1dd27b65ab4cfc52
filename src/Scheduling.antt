-- ===== src/Scheduling.antt =====
-- The independent check of a candidate: backend/application/scheduling/hard_constraints.py.
pub mod Groups
pub mod Sorting
pub mod HardConstraints
pub mod Rules
pub mod Grouped
pub mod Gaps
pub mod Lookups
pub mod Caps
pub mod Sound
pub mod Exact
