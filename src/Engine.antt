-- ===== src/Engine.antt =====
-- engine.rs
pub mod Fault
pub mod State
pub mod Tick
pub mod Reap
pub mod Reconcile
pub mod Rounds
pub mod Pause
pub mod Forward
pub mod Probe
pub mod Asking
pub mod Loops
pub mod Recovery
pub mod Timer
