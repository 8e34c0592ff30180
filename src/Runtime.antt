-- ===== src/Runtime.antt =====
-- common/cloudrm/runtime.py: `ServiceRuntime.publish`, by which every handler emits its events.
pub mod Laws
pub mod Setting
pub mod Service
pub mod Start
pub mod Available
pub mod Started
pub mod Health
pub mod Lifespan
pub mod Readiness
pub mod Lifecycle
use cloud_multi_agent_manage.Prelude.{String, Bool, true, false, none, [], ◌∷◌, not}
use cloud_multi_agent_manage.Value.{Value, Payload, null}
use cloud_multi_agent_manage.Platform.{Platform, runtime_error}
use cloud_multi_agent_manage.Message.{EventEnvelope, model_post_init}
use cloud_multi_agent_manage.Python.{get_nested}
use cloud_multi_agent_manage.Persistence.{record_event}
use cloud_multi_agent_manage.Exec.{
  Backend, rabbitmq, kafka, dual, to_kafka, to_rabbit, Exec, pure, raise, gets, ◌>>=◌, ◌>>◌, when,
  emit, reading,
}

-- `self.event_backend in {"kafka", "dual"}` and `in {"rabbitmq", "dual"}`
abbrev pub uses_kafka : Backend → Bool
uses_kafka kafka = true
uses_kafka dual = true
uses_kafka _ = false

abbrev pub uses_rabbit : Backend → Bool
uses_rabbit rabbitmq = true
uses_rabbit dual = true
uses_rabbit _ = false

module _ ⦃p : Platform⦄ where
  open p use {F}

  -- `EventEnvelope(event_type=…, correlation_id=…, source=…, payload=…)`
  unfoldable pub envelope : String → String → String → Payload F → Exec (EventEnvelope F)
  unfolding model_post_init
  envelope event_type correlation_id source payload = do
    n ← reading
    m ← reading
    pure (
        model_post_init (record {
          event_type = event_type;
          schema_version = "1";
          correlation_id = correlation_id;
          event_id = p.uuid4 n;
          source = source;
          occurred_at = p.datetime_at m;
          ttl_seconds = none;
          expires_at = none;
          payload = payload;
        }))

  publish_kafka : Value F → EventEnvelope F → Exec (Unit {0})
  publish_kafka topic e w =
      (when (not w.bus_ready) (raise (runtime_error "Kafka producer is not ready"))
          >> emit (to_kafka topic e))
        w

  publish_rabbit : EventEnvelope F → Exec (Unit {0})
  publish_rabbit e w =
      (when (not w.rabbit_ready) (raise (runtime_error "RabbitMQ publisher is not ready"))
          >> emit (to_rabbit e.event_type e))
        w

  unfoldable pub publish : String → EventEnvelope F → Exec (Unit {0})
  unfolding record_event publish_kafka publish_rabbit
  publish topic_key e = do
    ready ← gets (λ w. w.db_ready)
    when (not ready) (raise (runtime_error "Runtime is not ready"))
    config ← gets (λ w. w.config)
    let topic = get_nested config ("kafka" ∷ "topics" ∷ topic_key ∷ []) null
    record_event e
    backend ← gets (λ w. w.event_backend)
    when (uses_kafka backend) (publish_kafka topic e)
    when (uses_rabbit backend) (publish_rabbit e)

  -- Make an envelope and publish it, as the handlers do in one expression.
  unfoldable pub announce : String → String → String → String → Payload F → Exec (Unit {0})
  unfolding envelope publish
  announce topic_key event_type correlation_id source payload = do
    e ← envelope event_type correlation_id source payload
    publish topic_key e
