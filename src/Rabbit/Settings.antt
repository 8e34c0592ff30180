-- ===== src/Rabbit/Settings.antt =====
-- common/cloudrm/rabbit.py: `RabbitMqSettings`.
use cloud_multi_agent_manage.Prelude.{
  String, Option, none, some, List, [], ◌∷◌, str_eq, if◌then◌else◌,
}
use cloud_multi_agent_manage.Prelude.Int.{ℤ, pos}
use cloud_multi_agent_manage.Value.{Value, empty, str, int, dict, get_or}
use cloud_multi_agent_manage.Platform.{Platform, Result, ok, err, attribute_error, ◌>>=◌}
use cloud_multi_agent_manage.Python.{int_of, text_of, get_nested}

pub record RabbitMqSettings : Type 0 where
  pub host : String
  pub port : ℤ
  pub username : String
  pub password : String
  pub exchange : String
  pub dlx : String
  pub retry_exchange : String
  pub prefetch : ℤ
  pub retry_ttl_ms : ℤ
  pub default_ttl_seconds : ℤ
  pub queues : List (String × List String)

-- The default of `queues`: each queue with its routing keys.
abbrev pub default_queues : List (String × List String)
default_queues =
    ("queue.requests", "request.created" ∷ "sla.boost" ∷ "sla.risk" ∷ "scaling.done" ∷ [])
    ∷ ("queue.resources", "need_placement" ∷ "node.metrics.*" ∷ "node.unavailable" ∷ [])
    ∷ ("queue.sla", "request.classified" ∷ "decision.*" ∷ "execution.*" ∷ [])
    ∷ ("queue.forecast", "request.*" ∷ "queue.*" ∷ "execution.*" ∷ [])
    ∷ (
      "queue.coordinator",
      "request.classified" ∷ "node.proposal.*" ∷ "sla.*" ∷ "forecast.*" ∷ "node.unavailable" ∷ [],
    )
    ∷ ("queue.executor", "decision.dispatch" ∷ "node.unavailable" ∷ [])
    ∷ ("queue.scale", "decision.scale" ∷ [])
    ∷ []

-- `RabbitMqSettings()`: the defaults of the class.
abbrev pub default_settings : RabbitMqSettings
default_settings = record {
  host = "rabbitmq";
  port = pos 5672;
  username = "mas";
  password = "mas_password";
  exchange = "mas.events";
  dlx = "mas.dlx";
  retry_exchange = "mas.retry";
  prefetch = pos 10;
  retry_ttl_ms = pos 10000;
  default_ttl_seconds = pos 300;
  queues = default_queues;
}

module _ ⦃p : Platform⦄ where
  open p use {F}

  abbrev pub settings_of : Value F → Result RabbitMqSettings
  settings_of (dict raw) = do
    port ← int_of (get_or "port" (int (pos 5672)) raw)
    prefetch ← int_of (get_or "prefetch" (int (pos 10)) raw)
    retry_ttl_ms ← int_of (get_or "retry_ttl_ms" (int (pos 10000)) raw)
    default_ttl_seconds ← int_of (get_or "default_ttl_seconds" (int (pos 300)) raw)
    ok (record {
      host = text_of (get_or "host" (str "rabbitmq") raw);
      port = port;
      username = text_of (get_or "username" (str "mas") raw);
      password = text_of (get_or "password" (str "mas_password") raw);
      exchange = text_of (get_or "exchange" (str "mas.events") raw);
      dlx = text_of (get_or "dlx" (str "mas.dlx") raw);
      retry_exchange = text_of (get_or "retry_exchange" (str "mas.retry") raw);
      prefetch = prefetch;
      retry_ttl_ms = retry_ttl_ms;
      default_ttl_seconds = default_ttl_seconds;
      queues = default_queues;
    })
  settings_of _ = err attribute_error

  unfoldable pub from_config : Value F → Result RabbitMqSettings
  from_config config = settings_of (get_nested config ("rabbitmq" ∷ []) (dict empty))

-- A dict of texts: `mapping.get(key)`.
abbrev pub text_lookup {ℓ} : {A : Type ℓ} → String → List (String × A) → Option A
text_lookup k [] = none
text_lookup k ((j, v) ∷ d) = let rest = text_lookup k d in if str_eq j k then some v else rest

abbrev pub service_queues : List (String × String)
service_queues =
    ("queue-agent", "queue.requests")
    ∷ ("resource-agent", "queue.resources")
    ∷ ("sla-agent", "queue.sla")
    ∷ ("forecast-agent", "queue.forecast")
    ∷ ("coordinator-agent", "queue.coordinator")
    ∷ ("executor-agent", "queue.executor")
    ∷ ("scale-agent", "queue.scale")
    ∷ []

unfoldable pub queue_for_service : String → Option String
queue_for_service service_name = text_lookup service_name service_queues
