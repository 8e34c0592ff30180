-- ===== src/Api/Events.antt =====
-- services/api_service/main.py: `record_event` and `publish_event`. The backend of the API may be one
-- that no service supports.
use cloud_multi_agent_manage.Prelude.{String, not, [], ◌∷◌}
use cloud_multi_agent_manage.Value.{Payload, null}
use cloud_multi_agent_manage.Platform.{Platform, runtime_error}
use cloud_multi_agent_manage.Message.{EventEnvelope}
use cloud_multi_agent_manage.Python.{get_nested}
use cloud_multi_agent_manage.Statement.{insert_event}
use cloud_multi_agent_manage.Runtime.{envelope, uses_kafka, uses_rabbit}
use cloud_multi_agent_manage.Exec.{
  to_kafka, to_rabbit, Exec, raise, gets, ◌>>=◌, ◌>>◌, execute, emit, when,
}

module _ ⦃p : Platform⦄ where
  open p use {F}

  -- The statement is that of the services, but for their `ON CONFLICT (event_id) DO NOTHING`.
  unfoldable pub record_event : EventEnvelope F → Exec (Unit {0})
  record_event e =
      execute
        (insert_event e.event_id e.correlation_id e.event_type e.source e.payload e.occurred_at)

  publish_kafka : String → EventEnvelope F → Exec (Unit {0})
  publish_kafka topic_key e w =
      (do
        when (not w.bus_ready) (raise (runtime_error "Kafka producer is not ready"))
        config ← gets (λ w. w.config)
        emit (to_kafka (get_nested config ("kafka" ∷ "topics" ∷ topic_key ∷ []) null) e))
        w

  publish_rabbit : EventEnvelope F → Exec (Unit {0})
  publish_rabbit e w =
      (do
        when (not w.rabbit_ready) (raise (runtime_error "RabbitMQ publisher is not ready"))
        emit (to_rabbit e.event_type e))
        w

  unfoldable pub publish_event : String → EventEnvelope F → Exec (Unit {0})
  unfolding record_event publish_kafka publish_rabbit
  publish_event topic_key e = do
    record_event e
    backend ← gets (λ w. w.event_backend)
    when (uses_kafka backend) (publish_kafka topic_key e)
    when (uses_rabbit backend) (publish_rabbit e)

  -- Make an envelope and publish it.
  unfoldable pub announce_event : String → String → String → Payload F → Exec (Unit {0})
  unfolding envelope publish_event
  announce_event topic_key event_type correlation_id d = do
    e ← envelope event_type correlation_id "api-service" d
    publish_event topic_key e
