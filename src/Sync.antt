-- ===== src/Sync.antt =====
-- sync.rs
pub mod Plan
pub mod Apply
pub mod Run
pub mod Evolve
pub mod Steps
pub mod Moves
pub mod Progress
pub mod Statements
pub mod Forward
pub mod Whole
pub mod Baseline
pub mod Mirror
pub mod Lasting
pub mod Complete
pub mod MirrorPayment
