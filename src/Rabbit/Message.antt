-- ===== src/Rabbit/Message.antt =====
-- common/cloudrm/rabbit.py: the messages of the broker, and those that `RabbitPublisher` sends.
use cloud_multi_agent_manage.Prelude.{ℕ, String, Bool, Option, none, some, if◌then◌else◌}
use cloud_multi_agent_manage.Prelude.Int.{ℤ, pos, ◌*ℤ◌, eq_ℤ}
use cloud_multi_agent_manage.Value.{Payload, empty, str, field}
use cloud_multi_agent_manage.Message.{EventEnvelope}
use cloud_multi_agent_manage.Platform.{Result, ok, err, runtime_error}
use cloud_multi_agent_manage.Rabbit.Settings.{RabbitMqSettings}

pub record Message (F : Type 0) : Type 0 where
  pub body : String
  pub content_type : Option String
  pub message_id : Option String
  pub correlation_id : Option String
  -- as it is given to aio_pika
  pub expiration : Option ℤ
  pub headers : Option (Payload F)
  pub routing_key : String

-- `a or b` of an optional number: 0 counts as absent.
abbrev pub or_int : Option ℤ → ℤ → ℤ
or_int none d = d
or_int (some z) d = if eq_ℤ z (pos 0) then d else z

abbrev pub pos_of : Option ℕ → Option ℤ
pos_of none = none
pos_of (some n) = some (pos n)

module _ {F : Type 0} where
  -- `RabbitPublisher.publish`, with the JSON text of `broker_payload` and its fresh message_id.
  unfoldable pub message_of :
      RabbitMqSettings → String → EventEnvelope F → Option ℤ → String → String → Message F
  message_of s routing_key e ttl_seconds body message_id =
      let ttl = or_int ttl_seconds (or_int (pos_of e.ttl_seconds) s.default_ttl_seconds) in
      record {
        body = body;
        content_type = some "application/json";
        message_id = some message_id;
        correlation_id = some e.correlation_id;
        expiration = some (ttl *ℤ pos 1000);
        headers = some (
            field "event_id" (str e.event_id) (
              field "schema_version" (str e.schema_version) (field "source" (str e.source) empty)));
        routing_key = routing_key;
      }

  -- The whole method: it raises if `start` has not been called.
  unfoldable pub publish :
      Bool
      → RabbitMqSettings
      → String
      → EventEnvelope F
      → Option ℤ
      → String
      → String
      → Result (Message F)
  unfolding message_of
  publish started s routing_key e ttl_seconds body message_id =
      if started
      then ok (message_of s routing_key e ttl_seconds body message_id)
      else err (runtime_error "RabbitMQ publisher is not started")
