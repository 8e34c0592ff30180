-- ===== src/Api.antt =====
-- services/api_service/main.py: submitting a task, and the failure of a node.
pub mod Events
pub mod Tasks
pub mod Submit
pub mod Viewed
pub mod Queued
pub mod Delivered
pub mod Nodes
pub mod Ready
pub mod Start
pub mod Started
pub mod Handlers
pub mod Restart
