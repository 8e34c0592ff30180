-- ===== src/Examples/ExecutorTests.antt =====
-- An execution of a task at a concrete input.
use cloud_multi_agent_manage.Prelude.{ℕ, ◌≡◌, refl, [], ◌∷◌, String}
use cloud_multi_agent_manage.Value.{
  str, field, empty, lookup, get_or, of_hash, is_empty, hash_update, hash_insert,
}
use cloud_multi_agent_manage.Key.{node}
use cloud_multi_agent_manage.Platform.{Result, ok}
use cloud_multi_agent_manage.Platform.Laws.{hash}
use cloud_multi_agent_manage.Python.{item}
use cloud_multi_agent_manage.Message.{EventEnvelope, default_task}
use cloud_multi_agent_manage.Exec.{World}
use cloud_multi_agent_manage.Statement.{insert_task}
use cloud_multi_agent_manage.Api.Tasks.{new_task}
use cloud_multi_agent_manage.ExecutorAgent.Reserve.{reserve, remove_from_waiting}
use cloud_multi_agent_manage.ExecutorAgent.Execute.{
  execute_task, start_job, attempt, acquire, run, complete, recover, mark_running, wait,
}
use cloud_multi_agent_manage.ExecutorAgent.Final.{IsFinal, execute_task-IsFinal}
use cloud_multi_agent_manage.Examples.Toy.{toy}
use cloud_multi_agent_manage.Examples.ToyRedis.{toy-IsRedis}
use cloud_multi_agent_manage.Examples.Tests.{world, note}

abbrev dispatch : EventEnvelope ℕ
dispatch = record note {
  event_type = "decision.dispatch";
  payload = field "task_id" (str "t1") (field "node_id" (str "n1") empty);
}

abbrev before : World ⦃p = toy⦄
before = record (world ((node "n1", hash (("cpu_total", "4") ∷ [])) ∷ [])) {
  statements = insert_task (new_task ⦃p = toy⦄ "t1" "c1" (default_task ⦃p = toy⦄) 0) ∷ [];
}

-- The emulated execution takes one second, two sleeps; nothing else happens in Redis.
ran : Result (Unit {0}) × World ⦃p = toy⦄
ran = execute_task ⦃p = toy⦄ (λ _ s. s) dispatch before

ran-ok : ran.0 ≡ ok tt
unfolding ran execute_task start_job attempt acquire run complete recover mark_running wait reserve
    remove_from_waiting lookup get_or of_hash is_empty hash_update hash_insert
ran-ok = refl

execute_task-IsFinal_example :
    (id : String) × (item ⦃p = toy⦄ "task_id" dispatch.payload ≡ ok id)
    × IsFinal ⦃p = toy⦄ toy-IsRedis id ran.1
unfolding ran
execute_task-IsFinal_example =
    execute_task-IsFinal ⦃p = toy⦄ toy-IsRedis (λ _ s. s) dispatch before ran.1
      (λ i. (ran-ok i, ran.1))
