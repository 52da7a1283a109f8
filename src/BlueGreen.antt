-- ===== src/BlueGreen.antt =====
-- The blue-green deploy of fraisier-core: crates/fraisier-core/src/blue_green.rs and readiness.rs.
pub mod Types
pub mod Preflight
pub mod Deploy
pub mod Traffic
pub mod Swap
mod Samples
