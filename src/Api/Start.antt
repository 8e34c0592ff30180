-- ===== src/Api/Start.antt =====
-- services/api_service/main.py: `lifespan` up to its `yield`, and its end. The handles of `AppState`
-- are those of a `ServiceRuntime` without topics and without a consumer.
use cloud_multi_agent_manage.Prelude.{ℕ, String, true, false, Option, some, List, [], ◌∷◌, ◌++◌}
use cloud_multi_agent_manage.Value.{Value, dict, empty}
use cloud_multi_agent_manage.Platform.{Platform, Result}
use cloud_multi_agent_manage.Python.{get_nested}
use cloud_multi_agent_manage.Retry.{retry_async}
use cloud_multi_agent_manage.Rabbit.Settings.{RabbitMqSettings, from_config}
use cloud_multi_agent_manage.Runtime.{uses_kafka, uses_rabbit}
use cloud_multi_agent_manage.Runtime.Setting.{api_backend}
use cloud_multi_agent_manage.Runtime.Service.{
  ServiceRuntime, Clients, Start, ◌>>=◌, ◌>>◌, call, assign, when,
}
use cloud_multi_agent_manage.Runtime.Start.{retry_of, start_storage, open_channel}
use cloud_multi_agent_manage.Runtime.Lifespan.{
  Handle, bus_handle, publisher_handle, redis_handle, db_handle, given, close_all,
}

-- What the `finally` closes: the Redis client and the engine are there after the start.
abbrev pub held : ServiceRuntime → List Handle
held state =
    given state.bus bus_handle
    ++ (given state.rabbit publisher_handle ++ (redis_handle ∷ db_handle ∷ []))

unfoldable pub stop :
    (Handle → Result (Unit {0})) → ServiceRuntime → Result (Unit {0}) × List Handle
unfolding close_all
stop close state = close_all close (held state)

module _ ⦃p : Platform⦄ where
  open p use {F}

  unfoldable pub start_bus : Clients F → ℕ → Start (Unit {0})
  start_bus clients attempts = do
    call (retry_async clients.ping_kafka attempts).0
    assign (λ r. record r { bus = true })
    call clients.start_producer

  unfoldable pub start_publisher : Clients F → RabbitMqSettings → ℕ → Start (Unit {0})
  unfolding open_channel
  start_publisher clients settings attempts = do
    call (retry_async clients.ping_rabbitmq attempts).0
    assign (λ r. record r { rabbit = true })
    open_channel clients clients.connect_publisher settings attempts

  unfoldable pub start_state : Clients F → Value F → Option String → Start (Unit {0})
  unfolding start_storage start_bus start_publisher
  start_state clients config env = do
    (attempts, delay) ← call (retry_of (get_nested config ("system" ∷ "retry" ∷ []) (dict empty)))
    settings ← call (from_config config)
    assign (λ r. record r { rabbit_settings = some settings })
    let backend = api_backend config env
    assign (λ r. record r { event_backend = backend })
    start_storage clients config attempts
    assign (λ r. record r { bus = false; rabbit = false })
    when (uses_kafka backend) (start_bus clients attempts)
    when (uses_rabbit backend) (start_publisher clients settings attempts)
