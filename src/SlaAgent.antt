-- ===== src/SlaAgent.antt =====
-- services/sla_agent/main.py: the risk that a task misses its deadline, and the violations that
-- have happened.
pub mod Risk
pub mod Violation
pub mod Handlers
pub mod Bounds
pub mod KeyClash
pub mod Service
