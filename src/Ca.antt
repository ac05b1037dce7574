-- ===== src/Ca.antt =====
-- internal/ca
pub mod Ledger
pub mod Material
pub mod Mint
pub mod Ensure
mod Toy
mod Tests
mod Witnesses
