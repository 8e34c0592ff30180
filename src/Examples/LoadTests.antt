-- ===== src/Examples/LoadTests.antt =====
-- The tasks that are submitted, the forecast and the first nodes at concrete inputs.
use cloud_multi_agent_manage.Prelude.{
  ℕ, ◌*◌, ◌≡◌, refl, true, some, List, [], ◌∷◌, String, arith, leb, inl,
}
use cloud_multi_agent_manage.Prelude.Int.{pos}
use cloud_multi_agent_manage.Value.{
  Payload, Hash, str, int, field, empty, lookup, get_or, hash_lookup, hash_update, hash_insert,
  dict,
}
use cloud_multi_agent_manage.Key.{task, node}
use cloud_multi_agent_manage.Platform.{ok}
use cloud_multi_agent_manage.Platform.Laws.{hash}
use cloud_multi_agent_manage.Platform.Floats.{IsExact}
use cloud_multi_agent_manage.Message.{TaskCreate, default_task, EventEnvelope}
use cloud_multi_agent_manage.Python.{is_one_of}
use cloud_multi_agent_manage.Exec.{World}
use cloud_multi_agent_manage.Examples.Toy.{toy}
use cloud_multi_agent_manage.Examples.ToyRedis.{toy-IsRedis}
use cloud_multi_agent_manage.Examples.Tests.{note, world}
use cloud_multi_agent_manage.QueueAgent.Priority.{classify}
use cloud_multi_agent_manage.Api.Tasks.{submit_task, created_hash}
use cloud_multi_agent_manage.Api.Viewed.{created_view, get_task-submit_task}
use cloud_multi_agent_manage.Database.{row_of}
use cloud_multi_agent_manage.Database.Views.{found, get_task}
use cloud_multi_agent_manage.Forecast.Handlers.{worker, maxlen}
use cloud_multi_agent_manage.Forecast.Window.{last, history, worker-history}
use cloud_multi_agent_manage.ResourceAgent.Nodes.{initialize_node, node_mapping}
use cloud_multi_agent_manage.ResourceAgent.Kept.{usage_fields, initialize_node-kept}
use cloud_multi_agent_manage.Experiments.Load.{normal, weighted_class, task_payload}
use cloud_multi_agent_manage.Experiments.Classes.{classify-weighted_class}

scaled-leb : (m n : ℕ) → leb (m * 10000) (n * 10000) ≡ leb m n
scaled-leb m n = ground arith

abbrev toy-IsExact : IsExact ⦃p = toy⦄
toy-IsExact = record { of_int-le = λ m n _ _. scaled-leb m n }

abbrev heavy_task : TaskCreate ℕ
heavy_task = record (default_task ⦃p = toy⦄) { cpu_required = 80000 }

get_task-submit_task_example :
    let v = (submit_task ⦃p = toy⦄ heavy_task (world [])).1 in
    get_task ⦃p = toy⦄ "0" v ≡ (ok (found (created_view ⦃p = toy⦄ heavy_task "0" 2000000)), v)
unfolding hash_update hash_insert row_of
get_task-submit_task_example =
    get_task-submit_task ⦃p = toy⦄ heavy_task (world [])
      ((task "0", hash (created_hash ⦃p = toy⦄ heavy_task "1" 2)) ∷ []) refl refl refl
      (refl, refl, refl) refl

abbrev arrivals : List (EventEnvelope ℕ)
arrivals = record note { event_type = "request.classified" } ∷ note ∷ []

worker-history_example :
    (worker ⦃p = toy⦄ (λ w. w) arrivals [] (world [])).0
    ≡ last maxlen (history ⦃p = toy⦄ (λ w. w) arrivals [] (world []))
worker-history_example = worker-history ⦃p = toy⦄ (λ w. w) arrivals [] (world [])

classify-weighted_class_example :
    (c : String) × (weighted_class ⦃p = toy⦄ 9500 (normal ⦃p = toy⦄).mix ≡ ok c)
    × (classify ⦃p = toy⦄ (task_payload ⦃p = toy⦄ c 10000) ≡ ok c)
classify-weighted_class_example =
    classify-weighted_class ⦃p = toy⦄ toy-IsExact "normal" (normal ⦃p = toy⦄) 9500 10000 (inl refl)

abbrev node_a : Payload ℕ
node_a =
    field "id" (str "a")
      (field "cpu_total" (int (pos 8)) (field "ram_total_mb" (int (pos 4096)) empty))

abbrev used : Hash
used = ("node_id", "a") ∷ ("status", "failed") ∷ ("cpu_used", "3") ∷ []

abbrev used_world : World ⦃p = toy⦄
used_world = world ((node "a", hash used) ∷ [])

initialize_node-kept_example :
    let (r, v) = initialize_node ⦃p = toy⦄ (pos 3600) (dict node_a) used_world in
    (r ≡ ok tt)
    × (h : Hash) × (toy-IsRedis.view (node "a") v.redis ≡ hash h)
    × ((k t : String)
        → is_one_of k usage_fields ≡ true
        → hash_lookup k used ≡ some t
        → hash_lookup k h ≡ some t)
unfolding lookup node_mapping get_or
initialize_node-kept_example =
    initialize_node-kept ⦃p = toy⦄ toy-IsRedis node_a (str "a") used _ 3599 used_world refl
      (toy-IsRedis.view-write_self (node "a") (hash used) []) refl
