-- ===== src/Tests.antt =====
-- Runs of the model on concrete inputs, and the theorems at concrete inputs.
pub mod Sample
pub mod Stores
pub mod Syncs
pub mod Engines
pub mod Nodes
pub mod Requests
pub mod Runs
pub mod Loops
pub mod Calls
pub mod Settings
pub mod Starting
