-- ===== src/Runtime/Laws.antt =====
-- What `publish` leaves behind, by the backend.
use cloud_multi_agent_manage.Prelude.{String, ◌≡◌, true, List, [], ◌∷◌, arith}
use cloud_multi_agent_manage.Value.{Value, Payload, null}
use cloud_multi_agent_manage.Platform.{Platform, ok}
use cloud_multi_agent_manage.Message.{EventEnvelope}
use cloud_multi_agent_manage.Python.{get_nested}
use cloud_multi_agent_manage.Statement.{Statement, insert_event}
use cloud_multi_agent_manage.Exec.{
  Backend, rabbitmq, kafka, dual, other, Sent, to_kafka, to_rabbit, World,
}
use cloud_multi_agent_manage.Runtime.{publish, announce, envelope}

module _ ⦃p : Platform⦄ where
  open p use {F}

  abbrev pub topic_of : World → String → Value F
  topic_of w topic_key = get_nested w.config ("kafka" ∷ "topics" ∷ topic_key ∷ []) null

  -- What a publication adds to what was sent, the newest first.
  abbrev pub sent_by : Backend → Value F → EventEnvelope F → List (Sent F) → List (Sent F)
  sent_by rabbitmq topic e l = to_rabbit e.event_type e ∷ l
  sent_by kafka topic e l = to_kafka topic e ∷ l
  sent_by other topic e l = l
  sent_by dual topic e l = to_rabbit e.event_type e ∷ to_kafka topic e ∷ l

  abbrev pub event_row : EventEnvelope F → Statement F
  event_row e =
      insert_event e.event_id e.correlation_id e.event_type e.source e.payload e.occurred_at

  abbrev pub IsReady : World → Type 0
  IsReady w = (w.db_ready ≡ true) × (w.bus_ready ≡ true) × (w.rabbit_ready ≡ true)

  -- If the database and both producers are ready, `publish` succeeds, records the event in the
  -- database and sends the envelope once to each broker of the backend, to RabbitMQ under its event
  -- type; nothing else changes.
  pub publish-ready :
      (topic_key : String) (e : EventEnvelope F) (w : World)
      → IsReady w
      → publish topic_key e w ≡ (
        ok tt,
        record w {
          statements = event_row e ∷ w.statements;
          sent = sent_by w.event_backend (topic_of w topic_key) e w.sent;
        },
      )
  unfolding publish
  publish-ready topic_key e w h = ground arith

  -- A publication, whether it succeeds or raises, changes nothing in Redis.
  pub redis-announce :
      (topic_key event_type cid source : String) (d : Payload F) (w : World)
      → (announce topic_key event_type cid source d w).1.redis ≡ w.redis
  unfolding announce
  redis-announce topic_key event_type cid source d w = ground arith

  -- Where the database and the producers are ready it succeeds, and they stay ready.
  pub announce-IsReady :
      (k et cid source : String) (d : Payload F) (w : World)
      → IsReady w
      → ((announce k et cid source d w).0 ≡ ok tt) × IsReady (announce k et cid source d w).1
  unfolding announce envelope publish
  announce-IsReady k et cid source d w h = ground arith

  pub config-announce :
      (k et cid source : String) (d : Payload F) (w : World)
      → (announce k et cid source d w).1.config ≡ w.config
  unfolding announce
  config-announce k et cid source d w = ground arith
