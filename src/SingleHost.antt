-- ===== src/SingleHost.antt =====
-- The single-host deploy: crates/fraisier-core/src/single_host.rs and restore_rehearsal.rs.
pub mod Rehearsal
pub mod Types
pub mod Preflight
pub mod Steps
pub mod Deploy
pub mod Contract
pub mod Quiet
pub mod Conditions
pub mod Migrating
pub mod Releasing
pub mod Stages
pub mod Ledger
mod Samples
