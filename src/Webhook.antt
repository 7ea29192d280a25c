-- ===== src/Webhook.antt =====
-- webhook.rs
pub mod Backoff
pub mod BackoffLaws
pub mod Dispatch
pub mod Order
pub mod Keeps
pub mod Interleaved
pub mod Loop
pub mod Delivery
