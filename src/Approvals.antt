-- ===== src/Approvals.antt =====
-- Approvals of a baseline: the bindings, the requests, the decisions and the promotion.
pub mod Rows
pub mod Conversations
pub mod Promote
pub mod Decide
pub mod Route
pub mod Request
pub mod Requests
pub mod Steps
pub mod Moves
pub mod Calls
pub mod Once
pub mod Promoted
pub mod Approved
pub mod Sole
pub mod Unreadable
