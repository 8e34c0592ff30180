-- ===== src/Runtime/Health.antt =====
-- common/cloudrm/runtime.py: `health` and `ready_response`, with the models of
-- common/cloudrm/messages.py. `env` is `os.environ.get("SERVICE_NAME")`.
use cloud_multi_agent_manage.Prelude.{
  ◌≡◌, String, Bool, true, false, not, Option, none, some, List, [], ◌∷◌, ◌++◌, ◌&&◌, ◌||◌, str_eq,
  arith, if◌then◌else◌,
}
use cloud_multi_agent_manage.Platform.{Platform, Result, ok, err, runtime_error}
use cloud_multi_agent_manage.Platform.Results.{is_ok}
use cloud_multi_agent_manage.Rabbit.Settings.{RabbitMqSettings}
use cloud_multi_agent_manage.Runtime.{uses_kafka, uses_rabbit}
use cloud_multi_agent_manage.Runtime.Setting.{or_default}
use cloud_multi_agent_manage.Runtime.Service.{ServiceRuntime}

-- "ok", "degraded" and "down"
pub data Status : Type 0 where
  status_ok degraded down : Status

-- `details` holds the text of an error, or nothing.
pub record HealthComponent : Type 0 where
  pub name : String
  pub status : Status
  pub details : Option String

pub record HealthResponse : Type 0 where
  pub service : String
  pub status : Status
  pub components : List HealthComponent

-- What the dependencies answer to the pings of one request.
pub record Pings : Type 0 where
  pub db : Result (Unit {0})
  pub redis : Result (Unit {0})
  pub kafka : Result (Unit {0})
  pub rabbitmq : Result (Unit {0})

abbrev pub is_status_ok : Status → Bool
is_status_ok status_ok = true
is_status_ok _ = false

-- `all(component.status == "ok" for component in components)`
abbrev pub all_ok : List HealthComponent → Bool
all_ok [] = true
all_ok (c ∷ cs) = let rest = all_ok cs in is_status_ok c.status && rest

abbrev pub process : HealthComponent
process = record { name = "process"; status = status_ok; details = none }

-- `if self.last_error:`
abbrev pub worker_component : Option String → HealthComponent
worker_component none = record { name = "worker"; status = status_ok; details = none }
worker_component (some t) =
    if str_eq t ""
    then record { name = "worker"; status = status_ok; details = none }
    else record { name = "worker"; status = degraded; details = some t }

-- A client that holds no settings is not asked.
abbrev pub with_settings : Option RabbitMqSettings → Result (Unit {0}) → Result (Unit {0})
with_settings none ping = err (runtime_error "RabbitMQ settings are not loaded")
with_settings (some s) ping = ping

abbrev pub health : String → Option String → HealthResponse
health name env = record {
  service = or_default env name;
  status = status_ok;
  components = process ∷ [];
}

module _ ⦃p : Platform⦄ where
  -- The component of one dependency: `try: await ping …`
  abbrev pub component_of : String → Result (Unit {0}) → HealthComponent
  component_of name (ok u) = record { name = name; status = status_ok; details = none }
  component_of name (err x) = record { name = name; status = down; details = some (p.show_error x) }

  abbrev pub broker_components :
      Bool → Bool → Result (Unit {0}) → Result (Unit {0}) → List HealthComponent
  broker_components k r kafka rabbitmq =
      (if k then component_of "kafka" kafka ∷ [] else [])
      ++ (if r then component_of "rabbitmq" rabbitmq ∷ [] else [])

  unfoldable pub ready_response : ServiceRuntime → Option String → Pings → HealthResponse
  ready_response self env pings =
      let components =
        component_of "postgres" pings.db
        ∷ component_of "redis" pings.redis
        ∷ (broker_components (uses_kafka self.event_backend) (uses_rabbit self.event_backend)
              pings.kafka (with_settings self.rabbit_settings pings.rabbitmq)
            ++ (worker_component self.last_error ∷ [])) in
      if not self.db || not self.redis
      then record {
        service = self.service_name;
        status = down;
        components = record { name = "runtime"; status = down; details = some "not started" } ∷ [];
      }
      else record {
        service = or_default env self.service_name;
        status = if self.ready && all_ok components then status_ok else degraded;
        components = components;
      }

  -- The worker has left no error with a text.
  abbrev pub quiet : Option String → Bool
  quiet none = true
  quiet (some t) = str_eq t ""

  -- The status of `ready_response` is "ok" exactly where the service holds its database and Redis, has
  -- started, both answer, each broker that its backend uses answers (RabbitMQ with its settings
  -- loaded), and the last event left no error with a text.
  pub ready_response-ok :
      (self : ServiceRuntime) (env : Option String) (pings : Pings)
      → is_status_ok (ready_response self env pings).status ≡ (
          self.db
          && self.redis
          && self.ready
          && is_ok pings.db
          && is_ok pings.redis
          && (not (uses_kafka self.event_backend) || is_ok pings.kafka)
          && (not (uses_rabbit self.event_backend)
              || is_ok (with_settings self.rabbit_settings pings.rabbitmq))
          && quiet self.last_error)
  unfolding ready_response
  ready_response-ok self env pings = ground arith
