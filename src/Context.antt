-- ===== src/Context.antt =====
-- src/context.rs: the messages of a request. A history that is estimated to be too large is
-- compressed to a summary of its older messages and the recent ones. `Tokens` estimates a text and
-- cuts it, `Summary` asks for a summary, and `Compress` replaces the old messages.
pub mod Tokens
pub mod Chunks
pub mod Summary
pub mod Compress
pub mod History
