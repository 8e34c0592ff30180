-- ===== src/ScaleAgent.antt =====
-- services/scale_agent/main.py: adding and removing emulated nodes.
pub mod Handlers
pub mod Safety
pub mod Removed
pub mod Service
