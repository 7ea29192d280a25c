-- ===== src/Api.antt =====
-- api.rs
pub mod Token
pub mod Bearer
pub mod Handlers
pub mod Health
pub mod Lists
