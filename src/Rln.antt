-- ===== src/Rln.antt =====
-- rln.rs: the node's API as the companion uses it
pub mod Types
pub mod Api
pub mod Pages
pub mod Client
pub mod Listing
