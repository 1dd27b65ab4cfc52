-- ===== src/Grounding.antt =====
-- backend/application/grounding.
pub mod Placeholders
pub mod Tiling
pub mod Printed
pub mod Pagination
pub mod Drained
pub mod Complete
