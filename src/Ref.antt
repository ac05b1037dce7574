-- ===== src/Ref.antt =====
-- internal/ref
pub mod Grammar
pub mod Snapshot
pub mod Digest
pub mod Local
pub mod Resolve
mod Tests
mod Resolutions
