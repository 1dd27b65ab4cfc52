-- ===== src/Lifecycle.antt =====
-- The life of a schedule run, over every interleaving of the repository's calls.
pub mod Edges
pub mod Moves
pub mod Written
pub mod Cancels
pub mod Fenced
pub mod ActiveRuns
pub mod Calls
pub mod History
pub mod Streams
pub mod Consistency
pub mod JobMoves
pub mod Leases
pub mod Fencing
pub mod JobCalls
pub mod Takeover
pub mod HandOut
pub mod Inserts
pub mod Ends
