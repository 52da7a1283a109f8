-- ===== src/SelfUpgrade.antt =====
-- The self-upgrade: crates/fraisier-self-upgrade/src, with the symlink swap of
-- crates/fraisier-adapter-support/src/staging.rs.
pub mod Types
pub mod Source
pub mod Layout
pub mod Apply
pub mod Laws
pub mod Links
pub mod Pruning
pub mod Spared
pub mod Checked
pub mod Outcomes
mod Samples
