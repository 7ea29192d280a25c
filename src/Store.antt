-- ===== src/Store.antt =====
-- store.rs
pub mod Types
pub mod Equality
pub mod Rows
pub mod Codec
pub mod Transaction
pub mod Transfers
pub mod Outbox
pub mod Upsert
pub mod Payments
pub mod Node
pub mod Names
pub mod Atomic
pub mod AtomicPayment
pub mod Bound
pub mod Valid
pub mod Pins
