-- ===== src/ExecutorAgent/Reserve.antt =====
-- services/executor_agent/main.py: `reserve`, `remove_from_waiting` and `fail_tasks_on_node`.
use cloud_multi_agent_manage.Prelude.{String, Bool, List, [], ◌∷◌, ◌&&◌}
use cloud_multi_agent_manage.Prelude.Int.{ℤ, pos, ltb_ℤ}
use cloud_multi_agent_manage.Value.{Hash, int, str, field, empty, lookup, get_or, of_hash}
use cloud_multi_agent_manage.Key.{task, node, running, waiting, class_queue}
use cloud_multi_agent_manage.Platform.{Platform, runtime_error}
use cloud_multi_agent_manage.Python.{float_of, is_text, is_true, max_F, true_divide}
use cloud_multi_agent_manage.Persistence.{update_task}
use cloud_multi_agent_manage.Runtime.{announce}
use cloud_multi_agent_manage.Exec.{
  Exec, pure, raise, lift, query, ◌>>=◌, ◌>>◌, command, overwrite, when,
}

module _ ⦃p : Platform⦄ where
  open p use {F}

  abbrev pub is_failed : Hash → Bool
  is_failed h = is_text "failed" (lookup "status" (of_hash {F = F} h))

  -- `max(0.0, float(used) + sign * amount)`
  unfoldable pub shifted : F → ℤ → F → F
  shifted used sign amount = max_F (p.lit 0 1) (p.add used (p.times (p.of_int sign) amount))

  -- The gauge itself is not modelled: what stays is that the division may fail.
  abbrev gauge : F → String → Hash → Exec (Unit {0})
  gauge used key h = when (is_true (lookup key (of_hash {F = F} h))) (do
    total ← lift (float_of (get_or key (int (pos 0)) (of_hash {F = F} h)))
    lift (true_divide used total)
    pure tt)

  reserve_on : String → F → F → ℤ → Hash → Exec (Unit {0})
  unfolding shifted
  reserve_on node_id cpu ram sign h = do
    cpu_before ← lift (float_of (get_or "cpu_used" (int (pos 0)) (of_hash {F = F} h)))
    ram_before ← lift (float_of (get_or "ram_used_mb" (int (pos 0)) (of_hash {F = F} h)))
    let cpu_used = shifted cpu_before sign cpu
    let ram_used = shifted ram_before sign ram
    command (
        p.redis_hset (node node_id)
          (("cpu_used", p.show_float cpu_used) ∷ ("ram_used_mb", p.show_float ram_used) ∷ []))
    gauge cpu_used "cpu_total" h
    gauge ram_used "ram_total_mb" h

  -- The RAM of a task is an integer in the source; here it comes as the float that is added.
  unfoldable pub reserve : String → F → F → ℤ → Exec (Unit {0})
  unfolding reserve_on
  reserve node_id cpu ram sign = do
    h ← query (p.redis_hgetall (node node_id))
    when (ltb_ℤ (pos 0) sign && is_failed h) (raise (runtime_error "node_failure"))
    reserve_on node_id cpu ram sign h

  unfoldable pub remove_from_waiting : String → String → Exec (Unit {0})
  remove_from_waiting task_id task_class = do
    command (p.redis_zrem waiting task_id)
    command (p.redis_zrem (class_queue task_class) task_id)
    query (p.redis_zcard waiting)
    query (p.redis_zcard (class_queue task_class))
    pure tt

  -- The body of the loop of `fail_tasks_on_node`.
  unfoldable pub fail_task : String → String → String → String → Exec (Unit {0})
  unfolding update_task announce
  fail_task node_id reason correlation_id task_id = do
    update_task task_id (("status", str "failed") ∷ ("error", str reason) ∷ [])
    command (p.redis_hset (task task_id) (("status", "failed") ∷ ("error", reason) ∷ []))
    announce "execution_failed" "execution.failed" correlation_id "executor-agent" (
        field "task_id" (str task_id) (
          field "node_id" (str node_id)
            (field "status" (str "failed") (field "reason" (str reason) empty))))

  unfoldable pub fail_tasks : String → String → String → List String → Exec (Unit {0})
  unfolding fail_task
  fail_tasks node_id reason correlation_id [] = pure tt
  fail_tasks node_id reason correlation_id (t ∷ ts) =
      fail_task node_id reason correlation_id t >>= λ _. fail_tasks node_id reason correlation_id ts

  unfoldable pub fail_tasks_on_node : String → String → String → Exec (Unit {0})
  unfolding fail_tasks
  fail_tasks_on_node node_id reason correlation_id = do
    task_ids ← query (p.redis_smembers (running node_id))
    fail_tasks node_id reason correlation_id task_ids
    overwrite (p.redis_delete (running node_id))
