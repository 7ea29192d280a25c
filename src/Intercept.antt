-- ===== src/Intercept.antt =====
-- intercept.rs
pub mod Exchange
pub mod Transparent
pub mod Bodies
pub mod Hooks
pub mod Routes
pub mod Keeps
