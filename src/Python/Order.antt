-- ===== src/Python/Order.antt =====
-- The order of Python's minimum.
use cloud_multi_agent_manage.Prelude.{◌≡◌, true, arith}
use cloud_multi_agent_manage.Platform.{Platform}
use cloud_multi_agent_manage.Platform.Floats.{IsFloat}
use cloud_multi_agent_manage.Python.{min_F}

module _ ⦃p : Platform⦄ (laws : IsFloat) where
  open p use {F}
  open laws use {lt-le}

  -- The minimum is at most its first argument, also where the second is no number.
  pub min_F-le : (a x : F) → p.le a a ≡ true → p.le (min_F a x) a ≡ true
  min_F-le a x n = ground (arith, lt-le x a)
