-- ===== src/Gateway.antt =====
-- internal/gateway
pub mod Corefile
