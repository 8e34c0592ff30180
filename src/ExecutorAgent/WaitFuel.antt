-- ===== src/ExecutorAgent/WaitFuel.antt =====
-- The wait of `execute_task` ends within its fuel.
use cloud_multi_agent_manage.Prelude.{ℕ, zero, suc, ◌*◌, ◌≤◌, String, ◌≡◌, ◌≢◌, true, arith}
use cloud_multi_agent_manage.Key.{node}
use cloud_multi_agent_manage.Platform.{Platform, err, out_of_fuel}
use cloud_multi_agent_manage.Platform.Laws.{IsRedis}
use cloud_multi_agent_manage.Platform.Floats.{IsFloat, IsHalves}
use cloud_multi_agent_manage.Python.{min_F}
use cloud_multi_agent_manage.ExecutorAgent.Execute.{wait, wait_fuel}
use cloud_multi_agent_manage.Exec.{World}

module _ ⦃p : Platform⦄ (redis_laws : IsRedis) (laws : IsFloat) (halves : IsHalves) where
  open p use {F, Store}
  open redis_laws use {view, hgetall_lem}
  open laws use {le_trans, lt-le, le_of_not-lt, not-lt_of_le, lit_num}
  open halves use {zero-le, half_step}

  wait-fuel :
      (others : ℕ → Store → Store) (node_id : String) (fuel : ℕ) (remaining : F) (w : World)
      → fuel ≤ 20
      → p.le remaining (p.lit (5 * fuel) 1) ≡ true
      → (wait others node_id fuel remaining w).0 ≢ err out_of_fuel
  unfolding wait
  wait-fuel others node_id zero remaining w b h e = ground (
    arith,
    not-lt_of_le remaining (p.lit 0 0),
    le_trans remaining (p.lit 0 1) (p.lit 0 0) h zero-le,
  )
  wait-fuel others node_id (suc fuel) remaining w b h e =
      let s = others fuel w.redis in
      ground (
        arith,
        hgetall_lem (node node_id) s,
        wait-fuel others node_id fuel (p.subtract remaining (p.lit 5 1)) (record w { redis = s })
            (omega arith) (half_step fuel remaining (omega arith) h),
      )

  min_F-le : (x : F) → p.le x x ≡ true → p.le (min_F x (p.lit 100 1)) (p.lit 100 1) ≡ true
  min_F-le x n = ground (arith, le_of_not-lt (p.lit 100 1) x, lit_num 100 1)

  -- Whatever other services do to Redis during its sleeps, the wait of a task whose duration is a number
  -- ends within the fuel that it is given: it never runs out.
  pub wait-wait_fuel :
      (others : ℕ → Store → Store) (node_id : String) (duration : F) (w : World)
      → p.le duration duration ≡ true
      → (wait others node_id wait_fuel (min_F duration (p.lit 100 1)) w).0 ≢ err out_of_fuel
  wait-wait_fuel others node_id duration w n =
      wait-fuel others node_id wait_fuel (min_F duration (p.lit 100 1)) w (omega arith)
        (min_F-le duration n)
