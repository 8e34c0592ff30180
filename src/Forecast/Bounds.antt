-- ===== src/Forecast/Bounds.antt =====
-- services/forecast_agent/main.py: what the forecast publishes.
use cloud_multi_agent_manage.Prelude.{◌≡◌, true}
use cloud_multi_agent_manage.Prelude.Int.{ℤ}
use cloud_multi_agent_manage.Platform.{Platform}
use cloud_multi_agent_manage.Platform.Floats.{IsFloat}
use cloud_multi_agent_manage.Python.Order.{min_F-le}
use cloud_multi_agent_manage.Forecast.Handlers.{overload_risk}

module _ ⦃p : Platform⦄ (laws : IsFloat) where
  -- The risk of an overload never exceeds one, whatever the predicted length is.
  pub overload_risk-le : (predicted : ℤ) → p.le (overload_risk predicted) (p.lit 10 1) ≡ true
  unfolding overload_risk
  overload_risk-le predicted = min_F-le laws (p.lit 10 1) _ (laws.lit_num 10 1)
