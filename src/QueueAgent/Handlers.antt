-- ===== src/QueueAgent/Handlers.antt =====
-- services/queue_agent/main.py: the handlers of its events, and the dispatch of `worker`.
use cloud_multi_agent_manage.Prelude.{
  String, Bool, false, not, Option, none, some, List, [], ◌∷◌, ◌||◌, str_eq, if◌then◌else◌,
}
use cloud_multi_agent_manage.Prelude.Int.{ℤ, pos, ◌+ℤ◌, leb_ℤ, max_ℤ}
use cloud_multi_agent_manage.Value.{
  Payload, Hash, null, int, float, str, lookup, get_or, insert, merge, of_hash,
}
use cloud_multi_agent_manage.Key.{task, waiting, class_queue, experiment_mode}
use cloud_multi_agent_manage.Platform.{Platform, Result, ok, err}
use cloud_multi_agent_manage.Message.{EventEnvelope}
use cloud_multi_agent_manage.Python.{float_of, int_of, text_of, is_text, is_true, item}
use cloud_multi_agent_manage.Persistence.{update_task}
use cloud_multi_agent_manage.Runtime.{announce}
use cloud_multi_agent_manage.Exec.{Exec, pure, lift, query, ◌>>=◌, ◌>>◌, command, now}
use cloud_multi_agent_manage.QueueAgent.Priority.{
  task_classes, classify, dynamic_priority, capped_priority,
}

-- `"baseline" == mode` for a reply of GET.
abbrev pub is_baseline : Option String → Bool
is_baseline none = false
is_baseline (some mode) = str_eq mode "baseline"

-- `{"low": 0, "medium": 1, "high": 2, "critical": 4}.get(severity, 1)`
abbrev pub severity_boost : String → ℤ
severity_boost s =
    if str_eq s "low"
    then pos 0
    else if str_eq s "medium"
    then pos 1
    else if str_eq s "high"
    then pos 2
    else if str_eq s "critical"
    then pos 4
    else pos 1

module _ ⦃p : Platform⦄ where
  open p use {F}

  -- The gauges themselves are not modelled: what stays is that ZCARD may be refused.
  unfoldable pub set_class_metrics : List String → Exec (Unit {0})
  set_class_metrics [] = pure tt
  set_class_metrics (c ∷ cs) = query (p.redis_zcard (class_queue c)) >>= λ _. set_class_metrics cs

  unfoldable pub set_queue_metrics : Exec (Unit {0})
  unfolding set_class_metrics
  set_queue_metrics = query (p.redis_zcard waiting) >>= λ _. set_class_metrics task_classes

  -- The two `zadd` calls by which a task enters the queues, or moves in them.
  unfoldable pub zadd_both : String → String → F → Exec (Unit {0})
  zadd_both task_class task_id score = do
    command (p.redis_zadd waiting task_id score)
    command (p.redis_zadd (class_queue task_class) task_id score)

  abbrev pub classified_fields : Payload F → String → F → F → ℤ → Hash
  classified_fields d task_class score created_at priority =
      ("status", "classified")
      ∷ ("class", task_class)
      ∷ ("priority", p.show_int priority)
      ∷ ("base_priority", text_of (get_or "priority" (int (pos 1)) d))
      ∷ ("created_at_ts", p.show_float created_at)
      ∷ ("sla_boost", text_of (get_or "sla_boost" (int (pos 0)) d))
      ∷ []

  unfoldable pub enqueue_task : Payload F → String → Exec (Unit {0})
  unfolding zadd_both
  enqueue_task d correlation_id = do
    task_id ← lift (item "task_id" d)
    clock ← now
    created_at ← lift (float_of (get_or "created_at_ts" (float clock) d))
    task_class ← lift (classify d)
    score ← dynamic_priority d created_at none
    zadd_both task_class task_id score
    priority ← lift (capped_priority score)
    command (p.redis_hset (task task_id) (classified_fields d task_class score created_at priority))
    set_queue_metrics
    update_task task_id (("status", str "classified") ∷ ("priority", int priority) ∷ [])
    queue_length ← query (p.redis_zcard waiting)
    let classified_payload =
        insert "queue_length" (int (pos queue_length))
          (insert "dynamic_priority" (int priority) (insert "class" (str task_class) d))
    announce "request_classified" "request.classified" correlation_id "queue-agent"
        classified_payload
    announce "need_placement" "need_placement" correlation_id "queue-agent" classified_payload

  -- The boost that a signal asks for.
  unfoldable pub requested_boost : Payload F → Result ℤ
  requested_boost d =
      let severity = text_of (get_or "severity" (get_or "sla_severity" (str "low") d) d) in
      elim (int_of (get_or "boost" (int (pos 0)) d)) [
        | ok b ↦ ok (max_ℤ (severity_boost severity) b)
        | err e ↦ err e
      ]

  boost_task : Payload F → String → String → Hash → ℤ → Exec (Unit {0})
  unfolding zadd_both
  boost_task d correlation_id task_id h boost = do
    let t = of_hash {F = F} h
    let task_class = text_of (get_or "class" (str "standard") t)
    current_boost ← lift (int_of (get_or "sla_boost" (int (pos 0)) t))
    clock ← now
    created_at ← lift (float_of (get_or "created_at_ts" (float clock) t))
    score ← dynamic_priority (insert "sla_boost" (int (current_boost +ℤ boost)) t) created_at none
    priority ← lift (capped_priority score)
    command (
        p.redis_hset (task task_id) (
          ("sla_boost", p.show_int (current_boost +ℤ boost))
          ∷ ("priority", p.show_int priority)
          ∷ []))
    zadd_both task_class task_id score
    set_queue_metrics
    announce "need_placement" "need_placement" correlation_id "queue-agent"
        (insert "dynamic_priority" (int priority) (insert "class" (str task_class) d))

  -- `task.get("status") in {"classified", "waiting"}`; an empty hash has no status.
  abbrev pub is_queued : Hash → Bool
  is_queued h =
      is_text "classified" (lookup "status" (of_hash {F = F} h))
      || is_text "waiting" (lookup "status" (of_hash {F = F} h))

  unfoldable pub boost_if_queued : Payload F → String → String → Hash → Exec (Unit {0})
  unfolding boost_task
  boost_if_queued d correlation_id task_id h = if not (is_queued h) then pure tt else do
    boost ← lift (requested_boost d)
    if leb_ℤ boost (pos 0) then pure tt else boost_task d correlation_id task_id h boost

  unfoldable pub apply_sla_signal : Payload F → String → Exec (Unit {0})
  apply_sla_signal d correlation_id = if not (is_true (lookup "task_id" d)) then pure tt else do
    let task_id = text_of (get_or "task_id" null d)
    mode ← query (p.redis_get experiment_mode)
    if is_baseline mode then pure tt else do
      h ← query (p.redis_hgetall (task task_id))
      boost_if_queued d correlation_id task_id h

  -- `task.get("status") in {"running", "done", "dispatched"}`
  abbrev pub is_taken : Hash → Bool
  is_taken h =
      is_text "running" (lookup "status" (of_hash {F = F} h))
      || is_text "done" (lookup "status" (of_hash {F = F} h))
      || is_text "dispatched" (lookup "status" (of_hash {F = F} h))

  unfoldable pub requeue : Payload F → String → String → Hash → Exec (Unit {0})
  unfolding zadd_both
  requeue d correlation_id task_id h = do
    let t = of_hash {F = F} h
    own_class ← lift (classify d)
    let task_class = text_of (get_or "class" (get_or "class" (str own_class) d) t)
    score ← lift (
        float_of
          (get_or "priority" (get_or "dynamic_priority" (get_or "priority" (int (pos 1)) d) d) t))
    zadd_both task_class task_id score
    set_queue_metrics
    priority ← lift (capped_priority score)
    announce "need_placement" "need_placement" correlation_id "queue-agent" (
        insert "dynamic_priority" (int priority) (
          insert "class" (str task_class) (insert "task_id" (get_or "task_id" null d) (merge d t))))

  unfoldable pub handle_scaling_done : Payload F → String → Exec (Unit {0})
  handle_scaling_done d correlation_id =
      if not (is_true (lookup "requeue_after_scale" d))
      then pure tt
      else if not (is_true (lookup "task_id" d))
      then pure tt
      else do
        let task_id = text_of (get_or "task_id" null d)
        h ← query (p.redis_hgetall (task task_id))
        if is_taken h then pure tt else requeue d correlation_id task_id h

  -- The body of the `try` in `worker`, before the commit.
  unfoldable pub handle : EventEnvelope F → Exec (Unit {0})
  handle e =
      if str_eq e.event_type "request.created"
      then enqueue_task e.payload e.correlation_id
      else if str_eq e.event_type "sla.boost" || str_eq e.event_type "sla.risk"
      then apply_sla_signal e.payload e.correlation_id
      else if str_eq e.event_type "scaling.done"
      then handle_scaling_done e.payload e.correlation_id
      else pure tt
