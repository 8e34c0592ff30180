-- ===== src/Api/Tasks.antt =====
-- services/api_service/main.py: `submit_task` and `list_nodes`.
use cloud_multi_agent_manage.Prelude.{ℕ, String, List, [], ◌∷◌, if◌then◌else◌}
use cloud_multi_agent_manage.Prelude.Int.{pos}
use cloud_multi_agent_manage.Value.{
  Value, Payload, Hash, float, str, list, nil, field, empty, merge, is_empty,
}
use cloud_multi_agent_manage.Key.{Key, task, nodes}
use cloud_multi_agent_manage.Platform.{Platform, database_error}
use cloud_multi_agent_manage.Message.{TaskCreate, model_dump}
use cloud_multi_agent_manage.Python.{get_nested}
use cloud_multi_agent_manage.Statement.{NewTask, insert_task}
use cloud_multi_agent_manage.Database.{takes}
use cloud_multi_agent_manage.Exec.{
  Exec, pure, raise, gets, query, ◌>>=◌, ◌>>◌, command, execute, reading,
}
use cloud_multi_agent_manage.Api.Events.{announce_event}

-- The response of `submit_task`; its status is always "accepted".
pub record Accepted : Type 0 where
  pub task_id : String
  pub correlation_id : String

-- The response of `list_nodes`: the hashes of Redis, or the configured nodes.
pub data Listing (F : Type 0) : Type 0 where
  stored : List Hash → Listing F
  configured : Value F → Listing F

module _ ⦃p : Platform⦄ where
  open p use {F}

  -- `now.timestamp()`: the seconds since the epoch.
  abbrev pub timestamp : ℕ → F
  timestamp n = p.total_seconds (pos (p.datetime_at n))

  abbrev pub created_hash : TaskCreate F → String → ℕ → Hash
  created_hash t correlation_id n =
      ("status", "created")
      ∷ ("priority", p.show_int t.priority)
      ∷ ("created_at", p.isoformat (p.datetime_at n))
      ∷ ("created_at_ts", p.show_float (timestamp n))
      ∷ ("correlation_id", correlation_id)
      ∷ []

  -- `{"task_id": …, "created_at": …, "created_at_ts": …, **task.model_dump(mode="json")}`
  abbrev pub request_payload : TaskCreate F → String → ℕ → Payload F
  request_payload t task_id n =
      merge
        (field "task_id" (str task_id) (
          field "created_at" (str (p.isoformat (p.datetime_at n)))
            (field "created_at_ts" (float (timestamp n)) empty)))
        (model_dump t)

  -- The columns of the INSERT, and the parameters that they take.
  unfoldable pub new_task : String → String → TaskCreate F → ℕ → NewTask F
  new_task task_id correlation_id t now = record {
    task_id = task_id;
    correlation_id = correlation_id;
    status = "created";
    task_type = t.task_type;
    priority = t.priority;
    cpu_required = t.cpu_required;
    ram_required_mb = t.ram_required_mb;
    duration_seconds = t.duration_seconds;
    sla_deadline_seconds = t.sla_deadline_seconds;
    requires_gpu = t.requires_gpu;
    payload = t.payload;
    created_at = now;
    updated_at = now;
  }

  -- The INSERT, which the database may refuse.
  abbrev pub insert_row : NewTask F → Exec (Unit {0})
  insert_row r w =
      if takes w.statements r then execute (insert_task r) w else raise database_error w

  unfoldable pub submit_task : TaskCreate F → Exec Accepted
  unfolding announce_event new_task takes
  submit_task t = do
    i ← reading
    j ← reading
    n ← reading
    let task_id = p.uuid4 i
    let correlation_id = p.uuid4 j
    insert_row (new_task task_id correlation_id t (p.datetime_at n))
    command (p.redis_hset (task task_id) (created_hash t correlation_id n))
    announce_event "request_created" "request.created" correlation_id (request_payload t task_id n)
    pure (record { task_id = task_id; correlation_id = correlation_id })

  abbrev collect : Hash → List Hash → List Hash
  collect h hs = if is_empty h then hs else h ∷ hs

  -- The loop of `list_nodes`.
  unfoldable pub read_nodes : List Key → Exec (List Hash)
  read_nodes [] = pure []
  read_nodes (k ∷ ks) = do h ← query (p.redis_hgetall k); hs ← read_nodes ks; pure (collect h hs)

  unfoldable pub list_nodes : Exec (Listing F)
  unfolding read_nodes
  list_nodes = do
    keys ← gets (λ w. p.redis_keys nodes w.redis)
    hs ← read_nodes keys
    config ← gets (λ w. w.config)
    pure (
        if is_empty hs
        then configured (get_nested config ("agents" ∷ "resource" ∷ "nodes" ∷ []) (list nil))
        else stored hs)
