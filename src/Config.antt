-- ===== src/Config.antt =====
-- config.rs, and the command line of main.rs
pub mod Settings
pub mod Hosts
pub mod Validate
pub mod Accepted
pub mod Mapped
