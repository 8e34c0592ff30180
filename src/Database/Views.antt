-- ===== src/Database/Views.antt =====
-- services/api_service/main.py: `get_task`, with the `TaskView` of common/cloudrm/messages.py and
-- the `get_task` of common/cloudrm/persistence.py.
use cloud_multi_agent_manage.Prelude.{ℕ, String, Bool, Option, none, some}
use cloud_multi_agent_manage.Prelude.Int.{ℤ}
use cloud_multi_agent_manage.Value.{Value, null, int, str}
use cloud_multi_agent_manage.Platform.{Platform, Result, ok, err, value_error}
use cloud_multi_agent_manage.Exec.{Exec, pure, gets, lift, ◌>>=◌}
use cloud_multi_agent_manage.Database.{TaskRow, row_of}

pub record TaskView (F : Type 0) : Type 0 where
  pub task_id : String
  pub status : String
  pub task_type : String
  pub priority : ℤ
  pub cpu_required : F
  pub ram_required_mb : ℤ
  pub requires_gpu : Bool
  pub created_at : ℕ
  pub updated_at : ℕ
  pub assigned_node_id : Option String
  pub error : Option String

-- The answer of `get_task`: `not_found` is the status code 404.
pub data Answer (F : Type 0) : Type 0 where
  found : TaskView F → Answer F
  not_found : Answer F

-- The validation of a field: `str`, `int` and `str | None`.
abbrev pub as_text : {F : Type 0} → Value F → Result String
as_text (str t) = ok t
as_text _ = err value_error

abbrev pub as_integer : {F : Type 0} → Value F → Result ℤ
as_integer (int z) = ok z
as_integer _ = err value_error

abbrev pub as_optional_text : {F : Type 0} → Value F → Result (Option String)
as_optional_text null = ok none
as_optional_text (str t) = ok (some t)
as_optional_text _ = err value_error

module _ ⦃p : Platform⦄ where
  open p use {F}

  -- The `get_task` of persistence.py.
  unfoldable pub select_task : String → Exec (Option (TaskRow F))
  unfolding row_of
  select_task task_id = gets (λ w. row_of task_id w.statements)

  -- `TaskView(**data)`
  unfoldable pub view_of : TaskRow F → Exec (TaskView F)
  view_of r = do
    status ← lift (as_text r.status)
    priority ← lift (as_integer r.priority)
    assigned_node_id ← lift (as_optional_text r.assigned_node_id)
    error ← lift (as_optional_text r.error)
    pure (record {
      task_id = r.task_id;
      status = status;
      task_type = r.task_type;
      priority = priority;
      cpu_required = r.cpu_required;
      ram_required_mb = r.ram_required_mb;
      requires_gpu = r.requires_gpu;
      created_at = r.created_at;
      updated_at = r.updated_at;
      assigned_node_id = assigned_node_id;
      error = error;
    })

  abbrev answer : Option (TaskRow F) → Exec (Answer F)
  answer none = pure not_found
  answer (some r) = view_of r >>= λ v. pure (found v)

  unfoldable pub get_task : String → Exec (Answer F)
  unfolding select_task view_of
  get_task task_id = select_task task_id >>= answer
