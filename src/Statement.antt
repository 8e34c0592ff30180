-- ===== src/Statement.antt =====
-- The SQL statements of common/cloudrm/persistence.py and services/api_service/main.py, with their
-- parameters. Row identifiers that are fresh `uuid4`s are left out.
use cloud_multi_agent_manage.Prelude.{ℕ, String, Bool, List}
use cloud_multi_agent_manage.Prelude.Int.{ℤ}
use cloud_multi_agent_manage.Value.{Value, Payload}

-- The columns that the INSERT of `submit_task` gives, and their values.
pub record NewTask (F : Type 0) : Type 0 where
  pub task_id : String
  pub correlation_id : String
  pub status : String
  pub task_type : String
  pub priority : ℤ
  pub cpu_required : F
  pub ram_required_mb : ℤ
  pub duration_seconds : F
  pub sla_deadline_seconds : ℤ
  pub requires_gpu : Bool
  pub payload : Payload F
  pub created_at : ℕ
  pub updated_at : ℕ

pub data Statement (F : Type 0) : Type 0 where
  -- event_id, correlation_id, event_type, source, payload, occurred_at
  insert_event : String → String → String → String → Payload F → ℕ → Statement F
  insert_task : NewTask F → Statement F
  -- the columns set, updated_at, and the task
  update_task : List (String × Value F) → ℕ → String → Statement F
  -- task, correlation, node, utility, decision type, payload
  insert_decision : String → String → Value F → F → String → Payload F → Statement F
  -- task, correlation, node, status, started_at, finished_at, details
  insert_execution : String → String → String → String → ℕ → ℕ → Payload F → Statement F
  -- task, correlation, severity, details
  insert_violation : String → String → String → Payload F → Statement F
  -- the UPDATE of `simulate_node_failure`: every running task of the node fails, updated_at
  fail_running : String → ℕ → Statement F
