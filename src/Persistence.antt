-- ===== src/Persistence.antt =====
-- common/cloudrm/persistence.py: the statements that the services send to PostgreSQL.
use cloud_multi_agent_manage.Prelude.{ℕ, String, List, [], ◌∷◌, if◌then◌else◌}
use cloud_multi_agent_manage.Value.{Value, Payload, is_empty}
use cloud_multi_agent_manage.Platform.{Platform}
use cloud_multi_agent_manage.Message.{EventEnvelope}
use cloud_multi_agent_manage.Python.{is_one_of}
use cloud_multi_agent_manage.Statement.{
  Statement, insert_event, insert_decision, insert_execution, insert_violation,
}
use cloud_multi_agent_manage.Exec.{Exec, pure, ◌>>=◌, execute, reading}

abbrev pub allowed : List String
allowed = "status" ∷ "priority" ∷ "assigned_node_id" ∷ "error" ∷ []

-- `{key: value for key, value in fields.items() if key in allowed}`
abbrev pub allowed_fields : {F : Type 0} → List (String × Value F) → List (String × Value F)
allowed_fields [] = []
allowed_fields ((k, v) ∷ d) =
    let rest = allowed_fields d in if is_one_of k allowed then (k, v) ∷ rest else rest

module _ ⦃p : Platform⦄ where
  open p use {F}

  unfoldable pub record_event : EventEnvelope F → Exec (Unit {0})
  record_event e =
      execute
        (insert_event e.event_id e.correlation_id e.event_type e.source e.payload e.occurred_at)

  unfoldable pub update_task : String → List (String × Value F) → Exec (Unit {0})
  update_task task_id fields =
      let values = allowed_fields fields in
      if is_empty values
      then pure tt
      else do n ← reading; execute (Statement.update_task values (p.datetime_at n) task_id)

  unfoldable pub save_decision :
      String → String → Value F → F → String → Payload F → Exec (Unit {0})
  save_decision task_id correlation_id node_id utility decision_type details =
      execute (insert_decision task_id correlation_id node_id utility decision_type details)

  unfoldable pub save_execution :
      String → String → String → String → ℕ → ℕ → Payload F → Exec (Unit {0})
  save_execution task_id correlation_id node_id status started_at finished_at details =
      execute
        (insert_execution task_id correlation_id node_id status started_at finished_at details)

  unfoldable pub save_sla_violation : String → String → String → Payload F → Exec (Unit {0})
  save_sla_violation task_id correlation_id severity details =
      execute (insert_violation task_id correlation_id severity details)
