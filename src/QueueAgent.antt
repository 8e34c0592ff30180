-- ===== src/QueueAgent.antt =====
-- services/queue_agent/main.py: the classes of tasks, their queues in Redis, and the ageing of
-- priorities.
pub mod Again
pub mod Priority
pub mod Handlers
pub mod Ageing
pub mod Bounds
pub mod Signals
pub mod Queues
pub mod Enqueued
pub mod Service
