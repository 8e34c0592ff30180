-- ===== src/ResourceAgent.antt =====
-- services/resource_agent/main.py: the nodes of the data centre and the proposals for a task.
pub mod Score
pub mod Handlers
pub mod Room
pub mod Nodes
pub mod Kept
pub mod Service
