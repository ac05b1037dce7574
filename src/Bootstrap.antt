-- ===== src/Bootstrap.antt =====
-- internal/bootstrap
pub mod Failures
pub mod Client
pub mod Polling
pub mod Reconcile
pub mod Ready
pub mod Inventory
pub mod Install
mod Tests
