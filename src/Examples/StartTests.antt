-- ===== src/Examples/StartTests.antt =====
-- The starts of the services, their configuration and their health at concrete inputs.
use cloud_multi_agent_manage.Prelude.{
  ℕ, zero, suc, ◌≡◌, refl, true, none, some, Option, List, [], ◌∷◌, String, arith, str_eq,
  if◌then◌else◌, ◌⊎◌, ◌≢◌, ◌↔◌,
}
use cloud_multi_agent_manage.Prelude.Int.{pos}
use cloud_multi_agent_manage.Value.{
  Value, str, int, dict, field, empty, lookup, get_or, Hash, hash_insert, hash_lookup, is_empty,
}
use cloud_multi_agent_manage.Platform.{Result, ok, err, value_error}
use cloud_multi_agent_manage.Python.{get_nested}
use cloud_multi_agent_manage.Message.{EventEnvelope}
use cloud_multi_agent_manage.Exec.{dual, other}
use cloud_multi_agent_manage.Statement.{update_task}
use cloud_multi_agent_manage.Schema.{migrations}
use cloud_multi_agent_manage.Schema.Columns.{fits, fits_lem}
use cloud_multi_agent_manage.Persistence.{allowed_fields}
use cloud_multi_agent_manage.Examples.Toy.{toy}
use cloud_multi_agent_manage.Rabbit.Settings.{default_settings, from_config}
use cloud_multi_agent_manage.Rabbit.Consumer.{Outcome, committed, failed}
use cloud_multi_agent_manage.Kafka.{events}
use cloud_multi_agent_manage.Kafka.Skipped.{events-skipped}
use cloud_multi_agent_manage.Runtime.Setting.{
  event_backend, backend_text, api_backend, api_backend-eq-event_backend,
}
use cloud_multi_agent_manage.Runtime.Service.{Clients, ServiceRuntime, new}
use cloud_multi_agent_manage.Runtime.Start.{start}
use cloud_multi_agent_manage.Runtime.Available.{IsAvailable, Answers}
use cloud_multi_agent_manage.Runtime.Started.{started, start-ready}
use cloud_multi_agent_manage.Runtime.Health.{Pings}
use cloud_multi_agent_manage.Coordinator.Events.{schedule_decision}
use cloud_multi_agent_manage.Coordinator.Pending.{
  schedules, initially, after, IsSingle, IsSingle-Reachable,
}
use cloud_multi_agent_manage.Examples.Tests.{note}
use cloud_multi_agent_manage.Environment.{
  required, get_value, missing, split_once, parse_line, parse_lines, exit_code,
}
use cloud_multi_agent_manage.Environment.Complete.{IsComplete, exit_code-IsComplete}

-- A dependency that answers at the third call.
abbrev pub slow : ℕ → Result (Unit {0})
slow zero = err value_error
slow (suc zero) = err value_error
slow (suc (suc n)) = ok tt

pub slow-Answers : Answers slow 5
slow-Answers = (2, omega arith, λ i h. ground arith, refl)

abbrev pub clients : Clients ℕ
clients = record {
  create_engine = λ _. ok tt;
  ping_db = slow;
  execute = λ _. ok tt;
  create_redis = λ _. ok tt;
  ping_redis = λ _. ok tt;
  ping_kafka = slow;
  start_producer = ok tt;
  start_kafka_consumer = λ _. ok tt;
  ping_rabbitmq = slow;
  connect_publisher = slow;
  connect_consumer = λ _. ok tt;
  channel = ok tt;
  set_qos = λ _. ok tt;
  declare = λ _. ok tt;
}

abbrev pub clients-IsAvailable : IsAvailable clients 5
clients-IsAvailable = record {
  engine = λ _. refl;
  database = slow-Answers;
  executes = λ _. refl;
  cache = λ _. refl;
  store = (0, omega arith, λ i h. absurd (omega arith), refl);
  bus = slow-Answers;
  producer = refl;
  subscribes = λ _. refl;
  broker = slow-Answers;
  publisher = slow-Answers;
  subscriber = (0, omega arith, λ i h. absurd (omega arith), refl);
  opens = refl;
  limits = λ _. refl;
  declares = λ _. refl;
}

abbrev pub config : Value ℕ
config = dict (
    field "system" (dict (field "retry" (dict (field "attempts" (int (pos 5)) empty)) empty)) empty)

start-ready_example :
    start ⦃p = toy⦄ clients config (some "dual") (new "sla-agent" [])
    ≡ (ok tt, started default_settings dual (new "sla-agent" []))
unfolding get_nested lookup get_or from_config event_backend backend_text
start-ready_example =
    start-ready ⦃p = toy⦄ clients 5 clients-IsAvailable config (some "dual") 20000 default_settings
      dual "sla-agent" [] refl refl refl

api_backend-eq-event_backend_example :
    (event_backend ⦃p = toy⦄ config (some "nats") ≡ ok (api_backend ⦃p = toy⦄ config (some "nats")))
      × (api_backend ⦃p = toy⦄ config (some "nats") ≢ other)
    ⊎ (event_backend ⦃p = toy⦄ config (some "nats") ≡ err value_error)
      × (api_backend ⦃p = toy⦄ config (some "nats") ≡ other)
api_backend-eq-event_backend_example = api_backend-eq-event_backend ⦃p = toy⦄ config (some "nats")

abbrev up : Pings
up = record { db = ok tt; redis = ok tt; kafka = ok tt; rabbitmq = err value_error }

abbrev sla_agent : ServiceRuntime
sla_agent = started default_settings dual (new "sla-agent" [])

abbrev assignments : List (String × Value ℕ)
assignments = ("status", str "done") ∷ ("task_id", str "t2") ∷ ("priority", int (pos 4)) ∷ []

fits_lem_example : fits migrations (update_task (allowed_fields assignments) 7 "t1") ≡ true
fits_lem_example = fits_lem (update_task (allowed_fields assignments) 7 "t1") (assignments, refl)

-- The handler fails on the first message.
abbrev decode_any : String → Option (EventEnvelope ℕ)
decode_any t = some (record note { event_id = t })

abbrev first_fails : EventEnvelope ℕ → Outcome
first_fails e = if str_eq e.event_id "e1" then failed else committed

events-skipped_example :
    let (r, o) =
      events decode_any
        (λ n. n)
        first_fails
        ("e1" ∷ "e2" ∷ [])
        (record { position = 4; stored = 4 }) in
    (r ≡ none) × (o.stored ≡ 6)
events-skipped_example =
    events-skipped decode_any (λ n. n) first_fails ("e1" ∷ []) "e2"
      (record note { event_id = "e2" }) (record { position = 4; stored = 4 })
      ((record note { event_id = "e1" }, refl), tt) refl refl

IsSingle-Reachable_example : IsSingle ("t2" ∷ "t1" ∷ [])
unfolding schedule_decision
IsSingle-Reachable_example =
    IsSingle-Reachable ("t2" ∷ "t1" ∷ [])
      (after ("t1" ∷ []) _ (after [] _ initially (schedules "t1" [])) (schedules "t2" ("t1" ∷ [])))

-- The file names one variable and the process all of them.
abbrev process_environ : List String → Hash
process_environ [] = []
process_environ (key ∷ keys) = (key, "set") ∷ process_environ keys

abbrev env_lines : List String
env_lines = "# names" ∷ "COMPOSE_PROJECT_NAME=\"cloud=mas\"" ∷ []

parsed_quoted : parse_lines ⦃p = toy⦄ env_lines [] ≡ ("COMPOSE_PROJECT_NAME", "cloud=mas") ∷ []
unfolding parse_lines parse_line split_once hash_insert
parsed_quoted = refl

exit_code_complete : exit_code ⦃p = toy⦄ (process_environ required) (some env_lines) ≡ 0
unfolding exit_code get_value missing parse_lines parse_line split_once hash_insert hash_lookup
    is_empty
exit_code_complete = refl

exit_code-IsComplete_example :
    (exit_code ⦃p = toy⦄ (process_environ required) (some env_lines) ≡ 0)
    ↔ IsComplete ⦃p = toy⦄ (process_environ required) (parse_lines ⦃p = toy⦄ env_lines [])
exit_code-IsComplete_example =
    exit_code-IsComplete ⦃p = toy⦄ (process_environ required) env_lines refl
