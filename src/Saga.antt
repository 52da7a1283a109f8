-- ===== src/Saga.antt =====
-- The saga engine: crates/fraisier-saga/src.
pub mod Types
pub mod Key
pub mod Redact
pub mod Store
pub mod Lifecycle
pub mod Driver
pub mod Spec
pub mod Refinement
pub mod Atomic
pub mod Keeps
pub mod Locking
pub mod Memory
pub mod Stages
mod Samples
