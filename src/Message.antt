-- ===== src/Message.antt =====
-- common/cloudrm/messages.py: the event envelope, and what the API accepts as a task.
-- A datetime is a count of microseconds; every datetime here carries UTC.
use cloud_multi_agent_manage.Prelude.{
  ℕ, ◌+◌, ◌*◌, String, Bool, false, Option, none, some, leb, ◌&&◌,
}
use cloud_multi_agent_manage.Prelude.Int.{ℤ, pos, ltb_ℤ, leb_ℤ}
use cloud_multi_agent_manage.Value.{Payload, int, float, str, bool, dict, field, empty}
use cloud_multi_agent_manage.Platform.{Platform}

pub record EventEnvelope (F : Type 0) : Type 0 where
  pub event_type : String
  pub schema_version : String
  pub correlation_id : String
  pub event_id : String
  pub source : String
  pub occurred_at : ℕ
  pub ttl_seconds : Option ℕ
  pub expires_at : Option ℕ
  pub payload : Payload F

abbrev pub microseconds : ℕ
microseconds = 1_000_000

abbrev pub expiry : ℕ → Option ℕ → Option ℕ → Option ℕ
expiry now (some ttl) none = some (now + ttl * microseconds)
expiry now _ old = old

module _ {F : Type 0} where
  -- `model_post_init`
  unfoldable pub model_post_init : EventEnvelope F → EventEnvelope F
  model_post_init e = record e { expires_at = expiry e.occurred_at e.ttl_seconds e.expires_at }

  -- `is_expired`, with the clock's reading where no `now` is given.
  unfoldable pub is_expired : EventEnvelope F → ℕ → Bool
  is_expired e now = elim e.expires_at [ none ↦ false | some t ↦ leb t now ]

-- `TaskCreate`, as the API has it after its validation.
pub record TaskCreate (F : Type 0) : Type 0 where
  pub task_type : String
  pub cpu_required : F
  pub ram_required_mb : ℤ
  pub duration_seconds : F
  pub priority : ℤ
  pub sla_deadline_seconds : ℤ
  pub requires_gpu : Bool
  pub payload : Payload F

module _ ⦃p : Platform⦄ where
  open p use {F}

  -- The defaults of the fields.
  abbrev pub default_task : TaskCreate F
  default_task = record {
    task_type = "generic";
    cpu_required = p.lit 10 1;
    ram_required_mb = pos 512;
    duration_seconds = p.lit 50 1;
    priority = pos 1;
    sla_deadline_seconds = pos 30;
    requires_gpu = false;
    payload = empty;
  }

  -- The constraints of the fields, `gt`, `ge` and `le`.
  unfoldable pub is_valid_task : TaskCreate F → Bool
  is_valid_task t =
      p.lt (p.lit 0 0) t.cpu_required
      && ltb_ℤ (pos 0) t.ram_required_mb
      && p.lt (p.lit 0 0) t.duration_seconds
      && leb_ℤ (pos 0) t.priority
      && leb_ℤ t.priority (pos 10)
      && ltb_ℤ (pos 0) t.sla_deadline_seconds

  -- `task.model_dump(mode="json")`
  abbrev pub model_dump : TaskCreate F → Payload F
  model_dump t = field "task_type" (str t.task_type) (
      field "cpu_required" (float t.cpu_required) (
        field "ram_required_mb" (int t.ram_required_mb) (
          field "duration_seconds" (float t.duration_seconds) (
            field "priority" (int t.priority) (
              field "sla_deadline_seconds" (int t.sla_deadline_seconds) (
                field "requires_gpu" (bool t.requires_gpu)
                  (field "payload" (dict t.payload) empty)))))))
