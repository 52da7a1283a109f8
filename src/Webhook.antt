-- ===== src/Webhook.antt =====
-- The webhook: crates/fraisier-webhook/src/sign.rs and drain.rs.
pub mod Sign
pub mod Accepted
pub mod Drain
pub mod Drained
mod Samples
