-- ===== src/Examples/StoreTests.antt =====
-- The theorems on the stores of tasks at concrete inputs of the toy platform.
use cloud_multi_agent_manage.Prelude.{◌≡◌, ◌≢◌, refl, [], ◌∷◌}
use cloud_multi_agent_manage.Key.{waiting, class_queue}
use cloud_multi_agent_manage.Platform.{ok, err, out_of_fuel}
use cloud_multi_agent_manage.Python.{min_F}
use cloud_multi_agent_manage.Platform.Laws.{zset, zset_or_absent}
use cloud_multi_agent_manage.Exec.{World}
use cloud_multi_agent_manage.Examples.Toy.{toy, view}
use cloud_multi_agent_manage.Examples.ToyRedis.{toy-IsRedis}
use cloud_multi_agent_manage.Examples.ToyFloat.{toy-IsFloat, toy-IsHalves}
use cloud_multi_agent_manage.Examples.Tests.{world}
use cloud_multi_agent_manage.QueueAgent.Handlers.{zadd_both}
use cloud_multi_agent_manage.ExecutorAgent.Reserve.{remove_from_waiting}
use cloud_multi_agent_manage.ExecutorAgent.Execute.{wait, wait_fuel}
use cloud_multi_agent_manage.ExecutorAgent.WaitFuel.{wait-wait_fuel}
use cloud_multi_agent_manage.ExecutorAgent.Dequeue.{remove_from_waiting-zadd_both}

abbrev queue_world : World ⦃p = toy⦄
queue_world = world ((waiting, zset (("t2", 50000) ∷ [])) ∷ [])

remove_from_waiting-zadd_both_example :
    let (r, v) = zadd_both ⦃p = toy⦄ "gpu" "t1" 70000 queue_world in
    let (q, u) = remove_from_waiting ⦃p = toy⦄ "t1" "gpu" v in
    (r ≡ ok tt)
    × (q ≡ ok tt)
    × (view waiting u.redis ≡ zset_or_absent (("t2", 50000) ∷ []))
    × (view (class_queue "gpu") u.redis ≡ zset_or_absent [])
remove_from_waiting-zadd_both_example =
    remove_from_waiting-zadd_both ⦃p = toy⦄ toy-IsRedis "gpu" "t1" 70000 (("t2", 50000) ∷ []) []
      queue_world (toy-IsRedis.view-write_self waiting (zset (("t2", 50000) ∷ [])) [])
      (toy-IsRedis.view-write_ne (class_queue "gpu") waiting (zset (("t2", 50000) ∷ [])) []
        (λ h. cc))
      refl refl

wait-wait_fuel_example :
    (wait ⦃p = toy⦄
      (λ n s. s)
      "n1"
      (wait_fuel ⦃p = toy⦄)
      (min_F ⦃p = toy⦄ 30000 (toy.lit 100 1))
      (world [])).0
    ≢ err out_of_fuel
wait-wait_fuel_example =
    wait-wait_fuel ⦃p = toy⦄ toy-IsRedis toy-IsFloat toy-IsHalves (λ n s. s) "n1" 30000 (world [])
      refl
