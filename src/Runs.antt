-- ===== src/Runs.antt =====
-- The store of runs, src/storage/mod.rs.
pub mod Types
pub mod Rows
pub mod Queue
pub mod Tools
pub mod Interactions
pub mod Finish
pub mod Changes
pub mod Refine
pub mod Attempts
pub mod Ops
pub mod Laws
