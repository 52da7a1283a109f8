-- ===== src/Retention.antt =====
-- The retention planner of fraisier-db: crates/fraisier-db/src/retention.rs.
pub mod Policy
pub mod Sort
pub mod Glob
pub mod Plan
mod Samples
