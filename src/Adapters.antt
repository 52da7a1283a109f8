-- ===== src/Adapters.antt =====
-- What the deploys and their adapters share: crates/fraisier-core/src/adapter_axes.rs.
pub mod Kinds
pub mod Errors
pub mod Context
pub mod Axes
