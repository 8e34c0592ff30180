-- ===== src/Api/Submit.antt =====
-- services/api_service/main.py: what `submit_task` leaves behind, and the class that the queue agent
-- gives to the task it announces.
use cloud_multi_agent_manage.Prelude.{
  ℕ, ◌+◌, ◌≡◌, true, String, List, none, ◌∷◌, arith, str_eq, if◌then◌else◌,
}
use cloud_multi_agent_manage.Prelude.Int.{pos, leb_ℤ}
use cloud_multi_agent_manage.Value.{lookup, get_or, insert, merge}
use cloud_multi_agent_manage.Key.{task}
use cloud_multi_agent_manage.Platform.{Platform, ok}
use cloud_multi_agent_manage.Message.{EventEnvelope, TaskCreate}
use cloud_multi_agent_manage.Statement.{Statement, insert_task}
use cloud_multi_agent_manage.Database.{is_integer, row_of, takes}
use cloud_multi_agent_manage.Exec.{World}
use cloud_multi_agent_manage.Runtime.Laws.{topic_of, sent_by, event_row}
use cloud_multi_agent_manage.QueueAgent.Priority.{classify, classify_resources, classify_size}
use cloud_multi_agent_manage.Api.Tasks.{submit_task, new_task, request_payload, created_hash}

module _ ⦃p : Platform⦄ where
  open p use {F, Store}

  -- The event that a submission announces, at the n-th reading.
  abbrev pub request_event : TaskCreate F → ℕ → EventEnvelope F
  request_event t n = record {
    event_type = "request.created";
    schema_version = "1";
    correlation_id = p.uuid4 (n + 1);
    event_id = p.uuid4 (n + 3);
    source = "api-service";
    occurred_at = p.datetime_at (n + 4);
    ttl_seconds = none;
    expires_at = none;
    payload = request_payload t (p.uuid4 n) (n + 2);
  }

  -- The integers of the task are of the type INTEGER of their columns.
  abbrev pub IsStorable : TaskCreate F → Type 0
  IsStorable t =
      (is_integer t.priority ≡ true)
      × (is_integer t.ram_required_mb ≡ true)
      × (is_integer t.sla_deadline_seconds ≡ true)

  takes-new_task :
      (task_id cid : String) (t : TaskCreate F) (n : ℕ) (l : List (Statement F))
      → IsStorable t
      → row_of task_id l ≡ none
      → takes l (new_task task_id cid t n) ≡ true
  unfolding takes new_task
  takes-new_task task_id cid t n l (i, j, k) fresh = rw (i, j, k, fresh)

  -- If both producers are ready, the database takes the row and Redis takes the hash of the task, `submit_task` is accepted under
  -- two fresh identifiers: the task and its event are recorded, its hash is written, and the event is
  -- sent once to each broker of the backend, which is to none where the backend is none of the three.
  pub submit_task_lem :
      (t : TaskCreate F) (w : World) (s : Store)
      → w.bus_ready ≡ true
      → w.rabbit_ready ≡ true
      → p.redis_hset
          (task (p.uuid4 w.readings))
          (created_hash t (p.uuid4 (w.readings + 1)) (w.readings + 2))
          w.redis
        ≡ ok s
      → IsStorable t
      → row_of (p.uuid4 w.readings) w.statements ≡ none
      → let n = w.readings in
        let e = request_event t n in
        submit_task t w ≡ (
          ok (record { task_id = p.uuid4 n; correlation_id = p.uuid4 (n + 1) }),
          record w {
            redis = s;
            statements =
                event_row e
                ∷ insert_task (new_task (p.uuid4 n) (p.uuid4 (n + 1)) t (p.datetime_at (n + 2)))
                ∷ w.statements;
            sent = sent_by w.event_backend (topic_of w "request_created") e w.sent;
            readings = n + 5;
          },
        )
  unfolding submit_task
  submit_task_lem t w s b r h i fresh =
      let n = w.readings in
      let taken =
        takes-new_task (p.uuid4 n) (p.uuid4 (n + 1)) t (p.datetime_at (n + 2)) w.statements i
          fresh in
      ground (arith, taken)

  -- The class of a task, read off its fields.
  abbrev pub class_of : TaskCreate F → String
  class_of t =
      if str_eq t.task_type "critical"
      then "critical"
      else if leb_ℤ (pos 9) t.priority
      then "critical"
      else if t.requires_gpu
      then "gpu"
      else if p.le (p.of_int (pos 4)) t.cpu_required
      then "cpu-heavy"
      else if leb_ℤ (pos 8192) t.ram_required_mb
      then "memory-heavy"
      else "standard"

  -- The queue agent gives the task of every submission a class, without an error, and it is the one
  -- that the submitted fields say: the identifiers that the API adds do not change it.
  pub classify-request_payload :
      (t : TaskCreate F) (task_id : String) (n : ℕ)
      → classify (request_payload t task_id n) ≡ ok (class_of t)
  unfolding classify classify_resources classify_size lookup get_or insert merge
  classify-request_payload t task_id n = ground arith
