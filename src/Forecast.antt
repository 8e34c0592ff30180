-- ===== src/Forecast.antt =====
-- services/forecast_agent/main.py: the forecast of the queue's length.
pub mod Handlers
pub mod Window
pub mod Bounds
pub mod Service
