-- ===== src/Kafka/Producer.antt =====
-- common/cloudrm/kafka.py: `EventBus`. What it sends is the record that aiokafka is given.
use cloud_multi_agent_manage.Prelude.{
  ◌≡◌, refl, String, Bool, true, false, Option, none, some, str_eq, if◌then◌else◌,
}
use cloud_multi_agent_manage.Value.{Value}
use cloud_multi_agent_manage.Platform.{Result, ok, err, runtime_error}
use cloud_multi_agent_manage.Message.{EventEnvelope}

-- `producer` is set before its `start` is awaited.
pub record EventBus : Type 0 where
  pub bootstrap_servers : String
  pub service_name : String
  pub producer : Bool

abbrev pub new : String → String → EventBus
new servers name = record { bootstrap_servers = servers; service_name = name; producer = false }

-- `started` is what the client answers to its start, `stopped` to its stop.
unfoldable pub start : Result (Unit {0}) → EventBus → Result (Unit {0}) × EventBus
start started self = (started, record self { producer = true })

unfoldable pub stop : Result (Unit {0}) → EventBus → Result (Unit {0})
stop stopped self = if self.producer then stopped else ok tt

pub record ProducerRecord (F : Type 0) : Type 0 where
  pub topic : Value F
  pub value : String
  pub key : Option String

-- `key_serializer`: no key for an empty text.
abbrev pub serialized_key : String → Option String
serialized_key key = if str_eq key "" then none else some key

-- `broker_payload` is the JSON text of the envelope with its message id.
unfoldable pub publish :
    {F : Type 0} → EventBus → Value F → EventEnvelope F → String → Result (ProducerRecord F)
publish self topic e broker_payload =
    if self.producer
    then ok
        (record { topic = topic; value = broker_payload; key = serialized_key e.correlation_id })
    else err (runtime_error "Kafka producer не запущен")

-- After a start of the client, also one that raised, `publish` gives the client a record with the key
-- of the event.
publish-start :
    {F : Type 0} (started : Result (Unit {0})) (self : EventBus) (topic : Value F)
    (e : EventEnvelope F) (body : String)
    → publish (start started self).1 topic e body
      ≡ ok (record { topic = topic; value = body; key = serialized_key e.correlation_id })
unfolding publish start
publish-start started self topic e body = refl
