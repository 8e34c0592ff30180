-- ===== src/Examples/NodeTests.antt =====
-- The failure of a node, and a task that is queued twice, at concrete inputs.
use cloud_multi_agent_manage.Prelude.{
  ◌≡◌, refl, suc, inl, inr, sym, subst, String, List, [], ◌∷◌, In,
}
use cloud_multi_agent_manage.Prelude.Int.{pos}
use cloud_multi_agent_manage.Value.{
  lookup, get_or, insert, merge, is_empty, hash_update, hash_insert,
}
use cloud_multi_agent_manage.Key.{task, running, waiting, class_queue}
use cloud_multi_agent_manage.Platform.{ok}
use cloud_multi_agent_manage.Platform.Laws.{hash, set, zset, absent, score_insert}
use cloud_multi_agent_manage.Message.{default_task}
use cloud_multi_agent_manage.Python.{get_nested}
use cloud_multi_agent_manage.Persistence.{update_task}
use cloud_multi_agent_manage.Runtime.{announce, publish, envelope}
use cloud_multi_agent_manage.Exec.{World}
use cloud_multi_agent_manage.ExecutorAgent.Reserve.{fail_tasks_on_node}
use cloud_multi_agent_manage.ExecutorAgent.Failing.{IsReadable, IsFailed}
use cloud_multi_agent_manage.ExecutorAgent.NodeFailed.{fail_tasks_on_node-IsFailed}
use cloud_multi_agent_manage.QueueAgent.Priority.{
  capped_priority, priority_at, dynamic_priority, or_now, classify, classify_resources,
  classify_size,
}
use cloud_multi_agent_manage.QueueAgent.Handlers.{
  enqueue_task, zadd_both, set_queue_metrics, set_class_metrics,
}
use cloud_multi_agent_manage.QueueAgent.Enqueued.{score_of_task}
use cloud_multi_agent_manage.QueueAgent.Again.{enqueue_task-enqueue_task}
use cloud_multi_agent_manage.Api.Tasks.{request_payload}
use cloud_multi_agent_manage.Examples.Toy.{toy}
use cloud_multi_agent_manage.Examples.ToyRedis.{toy-IsRedis}
use cloud_multi_agent_manage.Examples.Tests.{world}

abbrev two_tasks : List String
two_tasks = "t1" ∷ "t2" ∷ []

-- Two tasks run on the node; only one has its hash.
abbrev failing : World ⦃p = toy⦄
failing =
    world ((running "n1", set two_tasks) ∷ (task "t2", hash (("status", "running") ∷ [])) ∷ [])

fail_tasks_on_node-IsFailed_example :
    let (r, v) = fail_tasks_on_node ⦃p = toy⦄ "n1" "node_failure" "c1" failing in
    (r ≡ ok tt)
    × (toy-IsRedis.view (running "n1") v.redis ≡ absent)
    × ((t : String) → In t two_tasks → IsFailed ⦃p = toy⦄ toy-IsRedis t v)
fail_tasks_on_node-IsFailed_example =
    fail_tasks_on_node-IsFailed ⦃p = toy⦄ toy-IsRedis "n1" "node_failure" "c1" two_tasks failing
      (refl, refl, refl) refl
      (λ t m. elim m [
        | inl h ↦ subst (λ k. IsReadable ⦃p = toy⦄ toy-IsRedis k failing.redis) (sym h) ([], refl)
        | inr n ↦ elim n [
          | inl h ↦
              subst (λ k. IsReadable ⦃p = toy⦄ toy-IsRedis k failing.redis) (sym h)
                (("status", "running") ∷ [], refl)
          | inr l ↦ absurd l
        ]
      ])

abbrev created : World ⦃p = toy⦄
created = world ((task "t1", hash (("status", "created") ∷ [])) ∷ [])

-- The world after the task was queued for the first time.
abbrev once : World ⦃p = toy⦄
once =
    (enqueue_task ⦃p = toy⦄ (request_payload ⦃p = toy⦄ (default_task ⦃p = toy⦄) "t1" 3) "c1"
      created).1

-- The clock has been read some times then.
capped_once :
    capped_priority ⦃p = toy⦄
      (score_of_task ⦃p = toy⦄ 500 (default_task ⦃p = toy⦄) 3 (toy.time_at (suc once.readings)))
    ≡ ok (pos 1)
unfolding capped_priority priority_at enqueue_task zadd_both set_queue_metrics set_class_metrics
    update_task announce publish envelope classify classify_resources classify_size dynamic_priority
    or_now get_nested lookup get_or insert merge is_empty hash_update hash_insert
capped_once = refl

enqueue_task-enqueue_task_example :
    let score =
      score_of_task ⦃p = toy⦄ 500 (default_task ⦃p = toy⦄) 3 (toy.time_at (suc once.readings)) in
    let (r, u) =
      enqueue_task ⦃p = toy⦄
        (request_payload ⦃p = toy⦄ (default_task ⦃p = toy⦄) "t1" 3)
        "c2"
        once in
    (r ≡ ok tt)
    × (toy-IsRedis.view waiting u.redis ≡ zset (score_insert "t1" score []))
    × (toy-IsRedis.view (class_queue "standard") u.redis ≡ zset (score_insert "t1" score []))
unfolding get_nested capped_priority priority_at
enqueue_task-enqueue_task_example =
    enqueue_task-enqueue_task ⦃p = toy⦄ toy-IsRedis (default_task ⦃p = toy⦄) "t1" "c1" "c2" 3 500
      (pos 1) (pos 1) (("status", "created") ∷ []) [] [] created (refl, refl, refl)
      (([], refl), λ c. ([], refl)) refl refl refl refl refl capped_once
