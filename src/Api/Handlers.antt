-- ===== src/Api/Handlers.antt =====
-- services/api_service/main.py: `start_experiment`, `stop_experiment` and `simulate_node_failure`.
use cloud_multi_agent_manage.Prelude.{String, Bool, List, [], ◌∷◌, ◌&&◌, ◌||◌}
use cloud_multi_agent_manage.Prelude.Int.{pos}
use cloud_multi_agent_manage.Value.{Payload, Hash, int, str, field, empty, lookup, get_or, of_hash}
use cloud_multi_agent_manage.Key.{
  Key, task, node, waiting, class_queue, experiment_active, experiment_mode, tasks,
}
use cloud_multi_agent_manage.Platform.{Platform}
use cloud_multi_agent_manage.Python.{float_of, text_of, is_text}
use cloud_multi_agent_manage.Statement.{Statement}
use cloud_multi_agent_manage.Exec.{
  Exec, pure, lift, gets, query, ◌>>=◌, ◌>>◌, command, overwrite, execute, when, reading,
}
use cloud_multi_agent_manage.Api.Events.{announce_event}

module _ ⦃p : Platform⦄ where
  open p use {F}

  unfoldable pub start_experiment : Payload F → Exec (Unit {0})
  start_experiment d = do
    overwrite (p.redis_set experiment_active (text_of (get_or "scenario" (str "normal") d)))
    overwrite (p.redis_set experiment_mode (text_of (get_or "mode" (str "mas") d)))

  unfoldable pub stop_experiment : Exec (Unit {0})
  stop_experiment = do
    overwrite (p.redis_delete experiment_active)
    overwrite (p.redis_delete experiment_mode)

  abbrev is_running_on : String → Hash → Bool
  is_running_on node_id h =
      is_text node_id (lookup "node_id" (of_hash {F = F} h))
      && is_text "running" (lookup "status" (of_hash {F = F} h))

  abbrev is_restartable : Hash → Bool
  is_restartable h =
      is_text "critical" (lookup "class" (of_hash {F = F} h))
      && (is_text "failed" (lookup "status" (of_hash {F = F} h))
          || is_text "need_restart" (lookup "status" (of_hash {F = F} h)))

  -- `float(task.get("priority", 10)) + 5`
  abbrev restart_score : Hash → Exec F
  restart_score h = do
    x ← lift (float_of (get_or "priority" (int (pos 10)) (of_hash {F = F} h)))
    pure (p.add x (p.of_int (pos 5)))

  abbrev restart : String → Hash → Exec (Unit {0})
  restart task_id h = do
    command (p.redis_hset (task task_id) (("status", "classified") ∷ []))
    score ← restart_score h
    command (p.redis_zadd waiting task_id score)
    command (p.redis_zadd (class_queue "critical") task_id score)

  -- The body of the loop over the tasks: both tests read the hash as it was before.
  unfoldable pub fail_running_task : String → String → Exec (Unit {0})
  fail_running_task node_id task_id = do
    h ← query (p.redis_hgetall (task task_id))
    when (is_running_on node_id h) (
        command
          (p.redis_hset (task task_id) (("status", "failed") ∷ ("error", "node_failure") ∷ [])))
    when (is_restartable h) (restart task_id h)

  abbrev fail_key : String → Key → Exec (Unit {0})
  fail_key node_id (task task_id) = fail_running_task node_id task_id
  fail_key node_id _ = pure tt

  unfoldable pub fail_running_tasks : String → List Key → Exec (Unit {0})
  unfolding fail_running_task
  fail_running_tasks node_id [] = pure tt
  fail_running_tasks node_id (k ∷ ks) = fail_key node_id k >>= λ _. fail_running_tasks node_id ks

  unfoldable pub simulate_node_failure : String → Exec (Unit {0})
  unfolding fail_running_tasks announce_event
  simulate_node_failure node_id = do
    command (p.redis_hset (node node_id) (("node_id", node_id) ∷ ("status", "failed") ∷ []))
    n ← reading
    execute (Statement.fail_running node_id (p.datetime_at n))
    keys ← gets (λ w. p.redis_keys tasks w.redis)
    fail_running_tasks node_id keys
    c ← reading
    announce_event "node_unavailable" "node.unavailable" (p.uuid4 c) (
        field "node_id" (str node_id)
          (field "reason" (str "manual_failure") (field "status" (str "failed") empty)))
