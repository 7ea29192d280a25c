-- ===== src/Proxy.antt =====
-- proxy.rs
pub mod Path
pub mod Headers
pub mod Forward
pub mod Fallback
pub mod Passed
pub mod Segments
