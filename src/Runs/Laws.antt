-- ===== src/Runs/Laws.antt =====
-- What the operations of src/storage/mod.rs promise, one module for each group.
pub mod Queue
pub mod Tools
