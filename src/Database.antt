-- ===== src/Database.antt =====
-- The table of tasks, as the SQL of services/api_service/main.py and common/cloudrm/persistence.py
-- changes it and reads it. It is read off the statements that were sent, the newest first, each of
-- them a transaction of its own; no statement of the program deletes a task. A statement that the
-- database refuses is not among them.
pub mod Views
pub mod Statuses
use cloud_multi_agent_manage.Prelude.{
  ℕ, String, Bool, true, false, Option, none, some, List, [], ◌∷◌, ◌&&◌, str_eq, if◌then◌else◌,
}
use cloud_multi_agent_manage.Prelude.Int.{ℤ, pos, negsuc, leb_ℤ}
use cloud_multi_agent_manage.Value.{Value, Payload, null, int, str}
use cloud_multi_agent_manage.Python.{is_text}
use cloud_multi_agent_manage.Statement.{Statement, NewTask, insert_task, update_task, fail_running}

-- A row of `tasks`, with a value for each column of the table.
pub record TaskRow (F : Type 0) : Type 0 where
  pub task_id : String
  pub correlation_id : String
  pub status : Value F
  pub task_type : String
  pub priority : Value F
  pub cpu_required : F
  pub ram_required_mb : ℤ
  pub duration_seconds : F
  pub sla_deadline_seconds : ℤ
  pub requires_gpu : Bool
  pub payload : Payload F
  pub assigned_node_id : Value F
  pub error : Value F
  pub created_at : ℕ
  pub updated_at : ℕ

-- The values of the type INTEGER.
abbrev pub is_integer : ℤ → Bool
is_integer z = leb_ℤ (negsuc 2147483647) z && leb_ℤ z (pos 2147483647)

module _ {F : Type 0} where
  -- The row of an INSERT: the columns that it does not give are NULL.
  unfoldable pub created_row : NewTask F → TaskRow F
  created_row r = record {
    task_id = r.task_id;
    correlation_id = r.correlation_id;
    status = str r.status;
    task_type = r.task_type;
    priority = int r.priority;
    cpu_required = r.cpu_required;
    ram_required_mb = r.ram_required_mb;
    duration_seconds = r.duration_seconds;
    sla_deadline_seconds = r.sla_deadline_seconds;
    requires_gpu = r.requires_gpu;
    payload = r.payload;
    assigned_node_id = null;
    error = null;
    created_at = r.created_at;
    updated_at = r.updated_at;
  }

  -- One assignment of `UPDATE tasks SET`, for the columns of `allowed`.
  abbrev pub set_column : String → Value F → TaskRow F → TaskRow F
  set_column key value r =
      if str_eq key "status"
      then record r { status = value }
      else if str_eq key "priority"
      then record r { priority = value }
      else if str_eq key "assigned_node_id"
      then record r { assigned_node_id = value }
      else if str_eq key "error"
      then record r { error = value }
      else r

  unfoldable pub set_columns : List (String × Value F) → TaskRow F → TaskRow F
  set_columns [] r = r
  set_columns ((key, value) ∷ values) r = set_columns values (set_column key value r)

  abbrev pub updated : List (String × Value F) → ℕ → Option (TaskRow F) → Option (TaskRow F)
  updated values now none = none
  updated values now (some r) = some (record (set_columns values r) { updated_at = now })

  -- `WHERE assigned_node_id = :node_id AND status = 'running'`
  abbrev is_running_on : String → TaskRow F → Bool
  is_running_on node_id r =
      is_text node_id (some r.assigned_node_id) && is_text "running" (some r.status)

  -- The UPDATE of `simulate_node_failure`.
  abbrev pub failed_row : String → ℕ → Option (TaskRow F) → Option (TaskRow F)
  failed_row node_id now none = none
  failed_row node_id now (some r) = some (
      if is_running_on node_id r
      then record r { status = str "failed"; error = str "node_failure"; updated_at = now }
      else r)

  -- `SELECT * FROM tasks WHERE task_id = :task_id`
  unfoldable pub row_of : String → List (Statement F) → Option (TaskRow F)
  unfolding set_columns created_row
  row_of id [] = none
  row_of id (insert_task r ∷ l) =
      let rest = row_of id l in if str_eq r.task_id id then some (created_row r) else rest
  row_of id (update_task values n t ∷ l) =
      let rest = row_of id l in if str_eq t id then updated values n rest else rest
  row_of id (fail_running node_id n ∷ l) = failed_row node_id n (row_of id l)
  row_of id (Statement.insert_event _ _ _ _ _ _ ∷ l) = row_of id l
  row_of id (Statement.insert_decision _ _ _ _ _ _ ∷ l) = row_of id l
  row_of id (Statement.insert_execution _ _ _ _ _ _ _ ∷ l) = row_of id l
  row_of id (Statement.insert_violation _ _ _ _ ∷ l) = row_of id l

  abbrev pub is_free : Option (TaskRow F) → Bool
  is_free none = true
  is_free (some r) = false

  -- Whether the table takes an INSERT: its integers are of the type of their columns, and its primary
  -- key names no row yet.
  unfoldable pub takes : List (Statement F) → NewTask F → Bool
  unfolding row_of
  takes l r =
      is_integer r.priority
      && is_integer r.ram_required_mb
      && is_integer r.sla_deadline_seconds
      && is_free (row_of r.task_id l)
