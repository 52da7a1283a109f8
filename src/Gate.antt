-- ===== src/Gate.antt =====
-- The policy gate of fraisier-core: crates/fraisier-core/src/policy.rs, and the risk contract of
-- adapter_axes.rs that it reads.
pub mod Tier
pub mod Report
pub mod Rules
pub mod Decision
pub mod Evaluate
pub mod Worst
pub mod Verdicts
pub mod Allowed
pub mod Window
pub mod Admitted
pub mod Quiet
pub mod Admit
mod Samples
