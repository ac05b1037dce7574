-- ===== src/Pack.antt =====
-- internal/pack
pub mod Errors
pub mod Source
pub mod Context
pub mod Raw
pub mod Chart
pub mod Load
pub mod Helm
pub mod Kustomize
pub mod External
pub mod Render
pub mod Deps
pub mod Substitute
pub mod Values
pub mod Namespace
