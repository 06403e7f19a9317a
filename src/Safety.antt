-- ===== src/Safety.antt =====
-- src/safety.rs: which paths, commands and calls of external tools are allowed. Commands classifies
-- a command, Paths resolves a path, Policy decides with the mode and the user's answer.
pub mod Words
pub mod Commands
pub mod Paths
pub mod Values
pub mod Policy
pub mod Permits
pub mod External
