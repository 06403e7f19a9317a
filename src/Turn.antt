-- ===== src/Turn.antt =====
-- src/loop_engine.rs: a turn of the agent, which asks a model and executes the tools that it calls.
pub mod Stream
pub mod Request
pub mod Repeats
pub mod Waves
pub mod Rounds
