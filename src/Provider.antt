-- ===== src/Provider.antt =====
-- The provider layer.
pub mod Error
pub mod Retry
pub mod Circuit
pub mod Attempt
