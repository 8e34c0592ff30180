-- ===== src/Api/Viewed.antt =====
-- services/api_service/main.py: what `get_task` answers about a task that was submitted.
use cloud_multi_agent_manage.Prelude.{ℕ, ◌+◌, ◌≡◌, true, none, String, arith, eq_refl}
use cloud_multi_agent_manage.Key.{task}
use cloud_multi_agent_manage.Platform.{Platform, ok}
use cloud_multi_agent_manage.Message.{TaskCreate}
use cloud_multi_agent_manage.Exec.{World}
use cloud_multi_agent_manage.Database.{row_of}
use cloud_multi_agent_manage.Database.Views.{TaskView, found, select_task, view_of, get_task}
use cloud_multi_agent_manage.Api.Tasks.{submit_task, new_task, created_hash}
use cloud_multi_agent_manage.Api.Submit.{IsStorable, submit_task_lem}

module _ ⦃p : Platform⦄ where
  open p use {F, Store}

  -- The view of a task that nobody has taken up yet.
  abbrev pub created_view : TaskCreate F → String → ℕ → TaskView F
  created_view t task_id now = record {
    task_id = task_id;
    status = "created";
    task_type = t.task_type;
    priority = t.priority;
    cpu_required = t.cpu_required;
    ram_required_mb = t.ram_required_mb;
    requires_gpu = t.requires_gpu;
    created_at = now;
    updated_at = now;
    assigned_node_id = none;
    error = none;
  }

  -- If both producers are ready, Redis takes the hash of the task, its integers are of the type INTEGER
  -- of their columns and its fresh identifier names no row yet, then a request for the task right after its submission answers with the view that the
  -- submitted fields say, in the status "created", with no node and no error, and changes nothing.
  pub get_task-submit_task :
      (t : TaskCreate F) (w : World) (s : Store)
      → w.bus_ready ≡ true
      → w.rabbit_ready ≡ true
      → p.redis_hset
          (task (p.uuid4 w.readings))
          (created_hash t (p.uuid4 (w.readings + 1)) (w.readings + 2))
          w.redis
        ≡ ok s
      → IsStorable t
      → row_of (p.uuid4 w.readings) w.statements ≡ none
      → let v = (submit_task t w).1 in
        get_task (p.uuid4 w.readings) v
        ≡ (ok (found (created_view t (p.uuid4 w.readings) (p.datetime_at (w.readings + 2)))), v)
  unfolding get_task select_task view_of row_of new_task
  get_task-submit_task t w s b r h i fresh =
      rw (submit_task_lem t w s b r h i fresh) (ground (arith, eq_refl (p.uuid4 w.readings)))
