-- ===== src/Config.antt =====
-- internal/config
pub mod Names
mod Tests
