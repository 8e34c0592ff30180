-- ===== src/Experiments.antt =====
-- scripts/run_experiments.py and services/load_generator/main.py: the load that the experiments submit.
pub mod Load
pub mod Generator
pub mod Classes
pub mod Metrics
pub mod Polled
pub mod Service
pub mod Run
