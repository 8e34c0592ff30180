-- ===== src/Runtime/Started.antt =====
-- A service whose dependencies answer starts.
use cloud_multi_agent_manage.Prelude.{
  ℕ, ◌≡◌, ◌≢◌, refl, inl, inr, ap, String, Bool, true, false, Option, none, some, List, [], ◌∷◌,
  ◌&&◌, if◌then◌else◌,
}
use cloud_multi_agent_manage.Value.{Value, dict, empty}
use cloud_multi_agent_manage.Platform.{Platform, ok}
use cloud_multi_agent_manage.Python.{get_nested}
use cloud_multi_agent_manage.Exec.{Backend, rabbitmq, kafka, dual, other}
use cloud_multi_agent_manage.Rabbit.Settings.{
  RabbitMqSettings, from_config, queue_for_service, default_queues,
}
use cloud_multi_agent_manage.Rabbit.Bindings.{from_config-queues}
use cloud_multi_agent_manage.Runtime.{uses_kafka, uses_rabbit}
use cloud_multi_agent_manage.Runtime.Setting.{event_backend, api_backend-eq-event_backend}
use cloud_multi_agent_manage.Runtime.Service.{
  ServiceRuntime, Clients, Consumer, kafka_consumer, rabbit_consumer, new, has_any,
}
use cloud_multi_agent_manage.Runtime.Start.{start, start_brokers, is_kafka, retry_of}
use cloud_multi_agent_manage.Runtime.Available.{
  IsAvailable, with_rabbit, start_storage_lem, start_kafka_lem, start_rabbit_lem,
}

-- The consumer and the queue of a service that has started.
abbrev pub queue_of : Backend → String → Option String
queue_of backend name = if uses_rabbit backend then queue_for_service name else none

-- A consumer of RabbitMQ takes the place of one of Kafka.
abbrev pub consumer_from : Option String → Bool → Option Consumer
consumer_from (some queue_name) _ = some (rabbit_consumer queue_name)
consumer_from none true = some kafka_consumer
consumer_from none false = none

abbrev pub consumer_of : Backend → List String → String → Option Consumer
consumer_of backend topics name =
    consumer_from (queue_of backend name) (has_any topics && is_kafka backend)

abbrev pub started : RabbitMqSettings → Backend → ServiceRuntime → ServiceRuntime
started settings backend r = record r {
  db = true;
  redis = true;
  bus = uses_kafka backend;
  consumer = consumer_of backend r.topics r.service_name;
  rabbit_settings = some settings;
  rabbit = uses_rabbit backend;
  rabbit_consumer = queue_of backend r.service_name;
  event_backend = backend;
  ready = true;
}

-- The handles when the brokers are to be started.
abbrev stored : RabbitMqSettings → Backend → ServiceRuntime → ServiceRuntime
stored settings backend r = record r {
  db = true;
  redis = true;
  rabbit_settings = some settings;
  event_backend = backend;
}

module _ (settings : RabbitMqSettings) (name : String) (topics : List String) where
  finish_rabbitmq :
      (o : Option String) (k : Bool)
      → record (with_rabbit o (stored settings rabbitmq (new name topics))) { ready = true }
        ≡ record (started settings rabbitmq (new name topics)) {
          consumer = consumer_from o (k && false);
          rabbit_consumer = o;
        }
  finish_rabbitmq none true = refl
  finish_rabbitmq none false = refl
  finish_rabbitmq (some q) k = refl

  finish_kafka :
      (k : Bool)
      → record (stored settings kafka (new name topics)) {
        bus = true;
        consumer = if k && true then some kafka_consumer else none;
        ready = true;
      }
        ≡ record (started settings kafka (new name topics)) {
          consumer = consumer_from none (k && true);
        }
  finish_kafka true = refl
  finish_kafka false = refl

  -- The handles in the dual mode, after Kafka has been started.
  abbrev with_bus : Bool → ServiceRuntime
  with_bus k = record (stored settings dual (new name topics)) {
    bus = true;
    consumer = if k && false then some kafka_consumer else none;
  }

  finish_dual :
      (o : Option String) (k : Bool)
      → record (with_rabbit o (with_bus k)) { ready = true }
        ≡ record (started settings dual (new name topics)) {
          consumer = consumer_from o (k && false);
          rabbit_consumer = o;
        }
  finish_dual none true = refl
  finish_dual none false = refl
  finish_dual (some q) k = refl

module _ ⦃p : Platform⦄ where
  open p use {F}

  event_backend-other :
      (config : Value F) (env : Option String) (backend : Backend)
      → event_backend config env ≡ ok backend
      → backend ≢ other
  event_backend-other config env backend h e = elim (api_backend-eq-event_backend config env) [
    | inl (f, g) ↦ g (cc)
    | inr (f, g) ↦ cc
  ]

  module _ (clients : Clients F) (n : ℕ) (a : IsAvailable clients n) where
    -- A service that is stored starts its brokers; for a backend that a service takes.
    start_brokers_lem :
        (settings : RabbitMqSettings) (backend : Backend) (name : String) (topics : List String)
        → settings.queues ≡ default_queues
        → backend ≢ other
        → start_brokers clients settings backend n (stored settings backend (new name topics))
          ≡ (ok tt, started settings backend (new name topics))
    unfolding start_brokers
    start_brokers_lem settings rabbitmq name topics d b =
        let r = stored settings rabbitmq (new name topics) in
        rw (start_rabbit_lem clients n a settings r r d) (
          ap (λ x. (ok tt, x))
            (finish_rabbitmq settings name topics (queue_for_service name) (has_any topics)))
    start_brokers_lem settings kafka name topics d b =
        rw (start_kafka_lem clients n a (stored settings kafka (new name topics)))
          (ap (λ x. (ok tt, x)) (finish_kafka settings name topics (has_any topics)))
    start_brokers_lem settings dual name topics d b =
        let r = stored settings dual (new name topics) in
        rw
          (
            start_kafka_lem clients n a r,
            start_rabbit_lem clients n a settings r (with_bus settings name topics (has_any topics))
                d,
          )
          (ap (λ x. (ok tt, x))
            (finish_dual settings name topics (queue_for_service name) (has_any topics)))
    start_brokers_lem settings other name topics d b = absurd (b refl)

    -- A service whose dependencies all answer within the attempts of its configuration starts, if that
    -- configuration is valid and names one of the three backends: it is ready, it holds a producer for
    -- each broker of the backend, and it consumes from its queue, or where it has none from Kafka if
    -- the backend is Kafka alone and it has topics.
    pub start-ready :
        (config : Value F) (env : Option String) (delay : F) (settings : RabbitMqSettings)
        (backend : Backend) (name : String) (topics : List String)
        → retry_of (get_nested config ("system" ∷ "retry" ∷ []) (dict empty)) ≡ ok (n, delay)
        → from_config config ≡ ok settings
        → event_backend config env ≡ ok backend
        → start clients config env (new name topics)
          ≡ (ok tt, started settings backend (new name topics))
    unfolding start
    start-ready config env delay settings backend name topics r s b =
        let r' : ServiceRuntime = record (new name topics) {
          rabbit_settings = some settings;
          event_backend = backend;
        } in
        rw (r, s, b, start_storage_lem clients n a config r')
          (start_brokers_lem settings backend name topics (from_config-queues config settings s)
            (event_backend-other config env backend b))
