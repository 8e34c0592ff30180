-- ===== src/Runtime/Service.antt =====
-- common/cloudrm/runtime.py: the handles of `ServiceRuntime`, and what a start of a service calls
-- outside of it.
use cloud_multi_agent_manage.Prelude.{ℕ, String, Bool, true, false, Option, none, List, not}
use cloud_multi_agent_manage.Prelude.Int.{ℤ}
use cloud_multi_agent_manage.Value.{Value, is_empty}
use cloud_multi_agent_manage.Platform.{Result, ok, err}
use cloud_multi_agent_manage.Exec.{Backend, rabbitmq}
use cloud_multi_agent_manage.Schema.{Migration}
use cloud_multi_agent_manage.Rabbit.Settings.{RabbitMqSettings}
use cloud_multi_agent_manage.Rabbit.Topology.{Declaration}

pub data Consumer : Type 0 where
  kafka_consumer : Consumer
  -- the queue that it reads
  rabbit_consumer : String → Consumer

-- A handle is a truth value: whether the field holds something other than None.
pub record ServiceRuntime : Type 0 where
  pub service_name : String
  pub topics : List String
  pub db : Bool
  pub redis : Bool
  pub bus : Bool
  pub consumer : Option Consumer
  pub rabbit_settings : Option RabbitMqSettings
  pub rabbit : Bool
  pub rabbit_consumer : Option String
  pub event_backend : Backend
  pub ready : Bool
  pub last_error : Option String

-- `ServiceRuntime(service_name, topics)`
abbrev pub new : String → List String → ServiceRuntime
new service_name topics = record {
  service_name = service_name;
  topics = topics;
  db = false;
  redis = false;
  bus = false;
  consumer = none;
  rabbit_settings = none;
  rabbit = false;
  rabbit_consumer = none;
  event_backend = rabbitmq;
  ready = false;
  last_error = none;
}

-- The clients of the database, Redis and the brokers. A call that is retried has its attempt's number.
pub record Clients (F : Type 0) : Type 0 where
  pub create_engine : Value F → Result (Unit {0})
  pub ping_db : ℕ → Result (Unit {0})
  pub execute : Migration → Result (Unit {0})
  pub create_redis : Value F → Result (Unit {0})
  pub ping_redis : ℕ → Result (Unit {0})
  pub ping_kafka : ℕ → Result (Unit {0})
  pub start_producer : Result (Unit {0})
  pub start_kafka_consumer : List String → Result (Unit {0})
  pub ping_rabbitmq : ℕ → Result (Unit {0})
  -- The connections of the publisher and of the consumer; then `channel`, `set_qos`, and a declaration.
  pub connect_publisher : ℕ → Result (Unit {0})
  pub connect_consumer : ℕ → Result (Unit {0})
  pub channel : Result (Unit {0})
  pub set_qos : ℤ → Result (Unit {0})
  pub declare : Declaration → Result (Unit {0})

-- A step of a start: it changes the handles, and what was set before an error stays set.
abbrev pub Start : Type 0 → Type 0
Start A = ServiceRuntime → Result A × ServiceRuntime

module _ {A B : Type 0} where
  abbrev pub continue : Result A → (A → Start B) → ServiceRuntime → Result B × ServiceRuntime
  continue (ok a) f r = f a r
  continue (err e) f r = (err e, r)

  infixl 5 ◌>>=◌ ◌>>◌
  abbrev pub ◌>>=◌ : Start A → (A → Start B) → Start B
  ◌>>=◌ m f r = let (a, r') = m r in continue a f r'

  abbrev pub ◌>>◌ : Start A → Start B → Start B
  m >> k = m >>= λ _. k

abbrev pub call : {A : Type 0} → Result A → Start A
call a r = (a, r)

abbrev pub assign : (ServiceRuntime → ServiceRuntime) → Start (Unit {0})
assign f r = (ok tt, f r)

abbrev pub when : Bool → Start (Unit {0}) → Start (Unit {0})
when true m r = m r
when false m r = (ok tt, r)

-- `bool(topics)`
abbrev pub has_any : List String → Bool
has_any l = not (is_empty l)
