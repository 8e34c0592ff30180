-- ===== src/SlaAgent/Handlers.antt =====
-- services/sla_agent/main.py: the handlers of its events, and the dispatch of `worker`.
use cloud_multi_agent_manage.Prelude.{
  String, Bool, true, false, not, Option, none, some, [], ◌∷◌, ◌||◌, str_eq, if◌then◌else◌,
}
use cloud_multi_agent_manage.Prelude.Int.{ℤ, pos, ◌+ℤ◌, min_ℤ, eq_ℤ}
use cloud_multi_agent_manage.Value.{
  Value, Payload, Hash, null, int, float, str, field, empty, get_or, insert, merge,
}
use cloud_multi_agent_manage.Key.{sla}
use cloud_multi_agent_manage.Platform.{Platform}
use cloud_multi_agent_manage.Message.{EventEnvelope}
use cloud_multi_agent_manage.Python.{int_of, item}
use cloud_multi_agent_manage.Persistence.{update_task, save_sla_violation}
use cloud_multi_agent_manage.Runtime.{announce}
use cloud_multi_agent_manage.Exec.{Exec, pure, lift, ◌>>=◌, ◌>>◌, command, when, reading}
use cloud_multi_agent_manage.SlaAgent.Risk.{Assessment, assess_risk, assessment_fields}
use cloud_multi_agent_manage.SlaAgent.Violation.{Violation, actual_sla_violation}

abbrev pub priority_step : String → ℤ
priority_step severity =
    if str_eq severity "high" || str_eq severity "critical"
    then pos 2
    else if str_eq severity "medium"
    then pos 1
    else pos 0

abbrev pub needs_boost : String → Bool
needs_boost severity =
    str_eq severity "medium" || str_eq severity "high" || str_eq severity "critical"

module _ ⦃p : Platform⦄ where
  open p use {F}

  abbrev pub bool_text : Bool → String
  bool_text true = "true"
  bool_text false = "false"

  abbrev pub risk_hash : Assessment → Hash
  risk_hash a =
      ("risk", p.show_float a.risk)
      ∷ ("severity", a.severity)
      ∷ ("unsafe", bool_text a.unsafe)
      ∷ ("recommendation", a.recommendation)
      ∷ []

  -- `{**task, **assessment, "sla_risk": …, "sla_severity": …, "boosted_priority": …}`
  abbrev pub risk_payload : Payload F → Assessment → ℤ → Payload F
  risk_payload t a boosted = insert "boosted_priority" (int boosted) (
      insert "sla_severity" (str a.severity)
        (insert "sla_risk" (float a.risk) (merge t (assessment_fields a))))

  abbrev current_priority : Payload F → Value F
  current_priority t = get_or "dynamic_priority" (get_or "priority" (int (pos 1)) t) t

  -- The end of `handle_classified`: the signals, and before them the hash of the task's risk.
  unfoldable pub signal_risk : EventEnvelope F → Assessment → ℤ → Exec (Unit {0})
  signal_risk e a boosted = do
    announce "sla_risk" "sla.risk" e.correlation_id "sla-agent" (risk_payload e.payload a boosted)
    when (needs_boost a.severity) (
        announce "sla_boost" "sla.boost" e.correlation_id "sla-agent"
          (risk_payload e.payload a boosted))

  unfoldable pub publish_risk : EventEnvelope F → Assessment → ℤ → String → Exec (Unit {0})
  publish_risk e a boosted task_id = do
    command (p.redis_hset (sla task_id) (risk_hash a))
    signal_risk e a boosted

  unfoldable pub handle_classified : EventEnvelope F → Exec (Unit {0})
  handle_classified e = do
    let t = e.payload
    a ← lift (assess_risk t)
    priority ← lift (int_of (current_priority t))
    let boosted = min_ℤ (pos 10) (priority +ℤ priority_step a.severity)
    task_id ← lift (item "task_id" t)
    when (not (eq_ℤ boosted priority)) (update_task task_id (("priority", int boosted) ∷ []))
    publish_risk e a boosted task_id

  abbrev pub optional : Option F → Value F
  optional none = null
  optional (some x) = float x

  abbrev violation_details : Violation → String → Payload F
  violation_details v event_type = field "deadline" (float v.deadline) (
      field "wait_seconds" (optional v.wait_seconds) (
        field "execution_seconds" (optional v.execution_seconds)
          (field "severity" (str v.severity) (field "event_type" (str event_type) empty))))

  abbrev record_violation : EventEnvelope F → Option Violation → Exec (Unit {0})
  record_violation e none = pure tt
  record_violation e (some v) = do
    task_id ← lift (item "task_id" e.payload)
    save_sla_violation task_id e.correlation_id v.severity (violation_details v e.event_type)

  unfoldable pub handle_execution : EventEnvelope F → Exec (Unit {0})
  unfolding save_sla_violation
  handle_execution e = do
    n ← reading
    v ← lift (actual_sla_violation e.payload (p.datetime_at n))
    record_violation e v

  unfoldable pub handle : EventEnvelope F → Exec (Unit {0})
  handle e =
      if str_eq e.event_type "request.classified"
      then handle_classified e
      else if str_eq e.event_type "execution.done" || str_eq e.event_type "execution.failed"
      then handle_execution e
      else pure tt
