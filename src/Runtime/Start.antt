-- ===== src/Runtime/Start.antt =====
-- common/cloudrm/runtime.py: `ServiceRuntime.start`, and the starts of the publisher and of the
-- consumer of common/cloudrm/rabbit.py. `config` is what `load_config` gave.
use cloud_multi_agent_manage.Prelude.{
  ℕ, String, Bool, Option, none, some, true, List, [], ◌∷◌, ◌&&◌,
}
use cloud_multi_agent_manage.Prelude.Int.{pos, pos_part}
use cloud_multi_agent_manage.Value.{Value, int, dict, null, empty, get_or}
use cloud_multi_agent_manage.Platform
use cloud_multi_agent_manage.Platform.{Platform, Result, ok, err, attribute_error}
use cloud_multi_agent_manage.Python.{get_nested, int_of, float_of}
use cloud_multi_agent_manage.Exec.{Backend, kafka}
use cloud_multi_agent_manage.Schema.{run_migrations}
use cloud_multi_agent_manage.Retry.{retry_async}
use cloud_multi_agent_manage.Rabbit.Connect.{connect_with_retry}
use cloud_multi_agent_manage.Rabbit.Settings.{RabbitMqSettings, from_config, queue_for_service}
use cloud_multi_agent_manage.Rabbit.Topology.{Declaration, declare_topology, start_queue}
use cloud_multi_agent_manage.Runtime.{uses_kafka, uses_rabbit}
use cloud_multi_agent_manage.Runtime.Setting.{event_backend}
use cloud_multi_agent_manage.Runtime.Service.{
  ServiceRuntime, Clients, Start, kafka_consumer, rabbit_consumer, ◌>>=◌, ◌>>◌, call, assign, when,
  has_any,
}

-- `self.event_backend == "kafka"`
abbrev pub is_kafka : Backend → Bool
is_kafka kafka = true
is_kafka _ = Bool.false

-- The declarations, sent one after another.
unfoldable pub declare_all :
    (Declaration → Result (Unit {0})) → List Declaration → Result (Unit {0})
declare_all declare [] = ok tt
declare_all declare (d ∷ ds) =
    let rest = declare_all declare ds in elim (declare d) [ ok u ↦ rest | err x ↦ err x ]

module _ ⦃p : Platform⦄ where
  open p use {F}

  -- `int(retry.get("attempts", 30))` and `float(retry.get("delay_seconds", 2))`
  abbrev pub retry_of : Value F → Result (ℕ × F)
  retry_of (dict retry) =
      Platform.◌>>=◌ (int_of (get_or "attempts" (int (pos 30)) retry)) λ attempts.
        Platform.◌>>=◌ (float_of (get_or "delay_seconds" (int (pos 2)) retry))
          λ delay. ok (pos_part attempts, delay)
  retry_of _ = err attribute_error

  -- `connect_with_retry`, the channel and its topology, as both starts have them.
  unfoldable pub open_channel :
      Clients F → (ℕ → Result (Unit {0})) → RabbitMqSettings → ℕ → Start (Unit {0})
  unfolding declare_all
  open_channel clients connect settings attempts = do
    call (connect_with_retry connect attempts).0
    call clients.channel
    call (clients.set_qos settings.prefetch)
    call (declare_all clients.declare (declare_topology settings))

  unfoldable pub start_consumer : Clients F → RabbitMqSettings → String → ℕ → Start (Unit {0})
  unfolding open_channel
  start_consumer clients settings queue_name attempts = do
    assign (λ r. record r { rabbit_consumer = some queue_name })
    open_channel clients clients.connect_consumer settings attempts
    call (start_queue settings queue_name)
    assign (λ r. record r { consumer = some (rabbit_consumer queue_name) })

  unfoldable pub start_kafka : Clients F → ServiceRuntime → ℕ → Start (Unit {0})
  start_kafka clients self attempts = do
    call (retry_async clients.ping_kafka attempts).0
    assign (λ r. record r { bus = true })
    call clients.start_producer
    when (has_any self.topics && is_kafka self.event_backend) (do
      call (clients.start_kafka_consumer self.topics)
      assign (λ r. record r { consumer = some kafka_consumer }))

  unfoldable pub start_rabbit : Clients F → RabbitMqSettings → ServiceRuntime → ℕ → Start (Unit {0})
  unfolding open_channel start_consumer
  start_rabbit clients settings self attempts = do
    call (retry_async clients.ping_rabbitmq attempts).0
    assign (λ r. record r { rabbit = true })
    open_channel clients clients.connect_publisher settings attempts
    elim (queue_for_service self.service_name) [
      | none ↦ call (ok tt)
      | some queue_name ↦ start_consumer clients settings queue_name attempts
    ]

  unfoldable pub start_storage : Clients F → Value F → ℕ → Start (Unit {0})
  start_storage clients config attempts = do
    call (clients.create_engine (get_nested config ("postgres" ∷ "dsn" ∷ []) null))
    assign (λ r. record r { db = true })
    call (retry_async clients.ping_db attempts).0
    call (run_migrations clients.execute)
    call (clients.create_redis (get_nested config ("redis" ∷ "url" ∷ []) null))
    assign (λ r. record r { redis = true })
    call (retry_async clients.ping_redis attempts).0

  unfoldable pub start_brokers : Clients F → RabbitMqSettings → Backend → ℕ → Start (Unit {0})
  unfolding start_kafka start_rabbit
  start_brokers clients settings backend attempts = do
    self ← (λ r. (ok r, r))
    when (uses_kafka backend) (start_kafka clients self attempts)
    when (uses_rabbit backend) (start_rabbit clients settings self attempts)
    assign (λ r. record r { ready = true })

  unfoldable pub start : Clients F → Value F → Option String → Start (Unit {0})
  unfolding start_storage start_brokers
  start clients config env = do
    (attempts, delay) ← call (retry_of (get_nested config ("system" ∷ "retry" ∷ []) (dict empty)))
    settings ← call (from_config config)
    assign (λ r. record r { rabbit_settings = some settings })
    backend ← call (event_backend config env)
    assign (λ r. record r { event_backend = backend })
    start_storage clients config attempts
    start_brokers clients settings backend attempts
