-- ===== src/Coordinator.antt =====
-- services/coordinator_agent/main.py: collecting proposals and deciding where a task runs.
pub mod Utility
pub mod Ranking
pub mod Order
pub mod Degrade
pub mod Proposals
pub mod NodeKeys
pub mod Decide
pub mod Selection
pub mod Events
pub mod Pending
pub mod Decided
pub mod RoundTrip
pub mod Service
