-- ===== src/ExecutorAgent/Execute.antt =====
-- services/executor_agent/main.py: `execute_task`, with what other services do while it waits.
use cloud_multi_agent_manage.Prelude.{
  ℕ, zero, suc, String, Bool, true, false, some, [], ◌∷◌, str_eq, if◌then◌else◌,
}
use cloud_multi_agent_manage.Prelude.Int.{pos, negsuc}
use cloud_multi_agent_manage.Value.{Payload, Hash, int, float, str, field, empty, get_or, insert}
use cloud_multi_agent_manage.Key.{task, node, running}
use cloud_multi_agent_manage.Platform.{Platform, Error, runtime_error, out_of_fuel}
use cloud_multi_agent_manage.Message.{EventEnvelope}
use cloud_multi_agent_manage.Python.{float_of, int_of, text_of, item, min_F}
use cloud_multi_agent_manage.Persistence.{update_task, save_execution}
use cloud_multi_agent_manage.Runtime.{announce}
use cloud_multi_agent_manage.Exec.{
  Exec, pure, raise, lift, query, ◌>>=◌, ◌>>◌, command, overwrite, when, reading, now, caught,
}
use cloud_multi_agent_manage.ExecutorAgent.Reserve.{
  is_failed, reserve, remove_from_waiting, fail_tasks_on_node,
}

-- The local variables of `execute_task` that are set before its `try`.
pub record Job (F : Type 0) : Type 0 where
  pub payload : Payload F
  pub correlation_id : String
  pub task_id : String
  pub node_id : String
  pub task_class : String
  pub started_at : ℕ
  pub cpu : F
  pub ram : F

module _ ⦃p : Platform⦄ where
  open p use {F, Store}

  unfoldable pub start_job : EventEnvelope F → Exec (Job F)
  start_job e = do
    task_id ← lift (item "task_id" e.payload)
    node_id ← lift (item "node_id" e.payload)
    started_at ← reading
    cpu ← lift (float_of (get_or "cpu_required" (int (pos 1)) e.payload))
    ram ← lift (int_of (get_or "ram_required_mb" (int (pos 512)) e.payload))
    pure (record {
      payload = e.payload;
      correlation_id = e.correlation_id;
      task_id = task_id;
      node_id = node_id;
      task_class = text_of (get_or "class" (str "standard") e.payload);
      started_at = started_at;
      cpu = cpu;
      ram = p.of_int ram;
    })

  -- Up to `reserved = True`.
  unfoldable pub acquire : Job F → Exec (Unit {0})
  acquire j = do
    remove_from_waiting j.task_id j.task_class
    clock ← now
    lift (float_of (get_or "created_at_ts" (float clock) j.payload))
    now
    reserve j.node_id j.cpu j.ram (pos 1)

  abbrev check_node : Hash → Exec (Unit {0})
  check_node h = when (is_failed h) (raise (runtime_error "node_failure"))

  -- `while remaining > 0`; `others i` is what the other services do to Redis during a sleep.
  unfoldable pub wait : (ℕ → Store → Store) → String → ℕ → F → Exec (Unit {0})
  wait others node_id zero remaining =
      if p.lt (p.lit 0 0) remaining then raise out_of_fuel else pure tt
  wait others node_id (suc fuel) remaining =
      let rest = wait others node_id fuel (p.subtract remaining (p.lit 5 1)) in
      if p.lt (p.lit 0 0) remaining
      then (do
        overwrite (others fuel)
        h ← query (p.redis_hgetall (node node_id))
        check_node h
        rest)
      else pure tt

  unfoldable pub mark_running : Job F → Exec (Unit {0})
  unfolding update_task
  mark_running j = do
    command (p.redis_sadd (running j.node_id) j.task_id)
    update_task j.task_id (("status", str "running") ∷ ("assigned_node_id", str j.node_id) ∷ [])
    command (
        p.redis_hset (task j.task_id) (
          ("status", "running")
          ∷ ("node_id", j.node_id)
          ∷ ("started_at", p.isoformat (p.datetime_at j.started_at))
          ∷ ("correlation_id", j.correlation_id)
          ∷ []))

  -- Twenty sleeps of half a second are the ten seconds at which the source cuts a task off.
  abbrev pub wait_fuel : ℕ
  wait_fuel = 20

  -- From `reserved = True` to `reserved = False`; the result is the reading for `finished_at`.
  unfoldable pub run : (ℕ → Store → Store) → Job F → Exec ℕ
  unfolding mark_running wait
  run others j = do
    mark_running j
    duration ← lift (float_of (get_or "duration_seconds" (int (pos 1)) j.payload))
    wait others j.node_id wait_fuel (min_F duration (p.lit 100 1))
    finished_at ← reading
    reserve j.node_id j.cpu j.ram (negsuc 0)
    pure finished_at

  -- The rest of the `try`.
  unfoldable pub complete : Job F → ℕ → Exec (Unit {0})
  unfolding update_task save_execution announce
  complete j finished_at = do
    command (p.redis_srem (running j.node_id) j.task_id)
    update_task j.task_id (("status", str "done") ∷ [])
    command (
        p.redis_hset (task j.task_id)
          (("status", "done") ∷ ("finished_at", p.isoformat (p.datetime_at finished_at)) ∷ []))
    save_execution j.task_id j.correlation_id j.node_id "done" (p.datetime_at j.started_at)
        (p.datetime_at finished_at) (field "adapter" (str "kubernetes-emulator") empty)
    announce "execution_done" "execution.done" j.correlation_id "executor-agent" (
        insert "finished_at" (str (p.isoformat (p.datetime_at finished_at))) (
          insert "started_at" (str (p.isoformat (p.datetime_at j.started_at)))
            (insert "status" (str "done") j.payload)))

  abbrev pub release : Job F → Exec (Unit {0})
  release j = do
    reserve j.node_id j.cpu j.ram (negsuc 0)
    command (p.redis_srem (running j.node_id) j.task_id)

  abbrev pub note_error : String → Exec (Unit {0})
  note_error reason w = pure tt (record w { last_error = some reason })

  -- The `except` clause, with the value of `reserved`. `reason` is `str(exc)` on both of its branches.
  unfoldable pub recover : Job F → Bool → Error → Exec (Unit {0})
  unfolding update_task save_execution announce
  recover j reserved x = do
    finished_at ← reading
    let reason = p.show_error x
    note_error reason
    when reserved (release j)
    update_task j.task_id (("status", str "failed") ∷ ("error", str reason) ∷ [])
    command (p.redis_hset (task j.task_id) (("status", "failed") ∷ ("error", reason) ∷ []))
    save_execution j.task_id j.correlation_id j.node_id "failed" (p.datetime_at j.started_at)
        (p.datetime_at finished_at) (field "reason" (str reason) empty)
    announce "execution_failed" "execution.failed" j.correlation_id "executor-agent" (
        insert "finished_at" (str (p.isoformat (p.datetime_at finished_at))) (
          insert "started_at" (str (p.isoformat (p.datetime_at j.started_at)))
            (insert "reason" (str reason) (insert "status" (str "failed") j.payload))))

  -- The `try`: what `recover` is told is whether the reservation stands where the error arose.
  unfoldable pub attempt : (ℕ → Store → Store) → Job F → Exec (Unit {0})
  attempt others j w =
      let (r, w') = acquire j w in
      caught r
        (λ _ v.
          let (r', v') = run others j v in
          caught r'
            (λ finished_at u.
              let (r'', u') = complete j finished_at u in caught r'' pure (recover j false) u')
            (recover j true) v')
        (recover j false) w'

  unfoldable pub execute_task : (ℕ → Store → Store) → EventEnvelope F → Exec (Unit {0})
  unfolding start_job attempt
  execute_task others e = start_job e >>= attempt others

  -- The body of the `try` in `worker`, before the commit.
  unfoldable pub handle : (ℕ → Store → Store) → EventEnvelope F → Exec (Unit {0})
  handle others e =
      if str_eq e.event_type "decision.dispatch"
      then execute_task others e
      else if str_eq e.event_type "node.unavailable"
      then (lift (item "node_id" e.payload) >>= λ node_id.
          fail_tasks_on_node node_id "node_failure" e.correlation_id)
      else pure tt
