-- ===== src/MultiHost.antt =====
-- The rollout over several hosts: crates/fraisier-core/src/multi_host.rs, its batches and what it does
-- to one host.
pub mod Batches
pub mod Cut
pub mod Host
pub mod Contract
pub mod Advanced
pub mod Returned
mod Samples
