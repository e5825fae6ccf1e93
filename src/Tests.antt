-- ===== src/Tests.antt =====
-- Runs of the model on a small world, and the theorems applied there.
pub mod Sample
pub mod Disk
pub mod Selection
pub mod Targets
pub mod Dialling
pub mod Requests
pub mod Settings
pub mod Files
pub mod App
pub mod Handler
pub mod Checks
pub mod Process
pub mod Deadlines
