-- ===== src/ExecutorAgent.antt =====
-- services/executor_agent/main.py: reserving a node, running a task on it, and failing tasks.
pub mod Failing
pub mod NodeFailed
pub mod Reserve
pub mod Execute
pub mod Dequeue
pub mod WaitFuel
pub mod Written
pub mod Final
pub mod Service
