-- ===== src/Examples/Tests.antt =====
-- The theorems at concrete inputs of the toy platform.
use cloud_multi_agent_manage.Prelude.{
  ℕ, zero, suc, ◌≡◌, refl, true, none, some, List, [], ◌∷◌, String, str_eq, if◌then◌else◌, Option,
}
use cloud_multi_agent_manage.Value.{null, str, field, empty}
use cloud_multi_agent_manage.Platform.{Result, ok, err, value_error}
use cloud_multi_agent_manage.Message.{EventEnvelope}
use cloud_multi_agent_manage.Exec.{World, dual}
use cloud_multi_agent_manage.Examples.Toy.{toy, ToyStore}
use cloud_multi_agent_manage.Rabbit.Settings.{default_settings}
use cloud_multi_agent_manage.Rabbit.Message.{message_of, Message}
use cloud_multi_agent_manage.Rabbit.Retries.{deliveries, published-deliveries}

abbrev pub note : EventEnvelope ℕ
note = record {
  event_type = "request.created";
  schema_version = "1";
  correlation_id = "c1";
  event_id = "e1";
  source = "api-service";
  occurred_at = 0;
  ttl_seconds = none;
  expires_at = none;
  payload = field "task_id" (str "t1") empty;
}

abbrev pub decode : String → Option (EventEnvelope ℕ)
decode t = if str_eq t "note" then some note else none

abbrev pub world : ToyStore → World ⦃p = toy⦄
world s = record {
  config = null;
  event_backend = dual;
  db_ready = true;
  bus_ready = true;
  rabbit_ready = true;
  redis = s;
  statements = [];
  sent = [];
  readings = 0;
  last_error = none;
}

abbrev pub message : Message ℕ
message = message_of default_settings "request.created" note none "note" "m1"

published-deliveries_example :
    deliveries ⦃p = toy⦄ decode 7 4
      (message_of default_settings "request.created" note none "note" "m1")
    ≡ some 4
published-deliveries_example =
    published-deliveries ⦃p = toy⦄ decode default_settings "request.created" "note" "m1" note 7 refl
      refl

abbrev two : List (Message ℕ)
two = record message { body = "no note" } ∷ message ∷ []

-- The operation fails twice, and then gives 7.
abbrev third : ℕ → Result ℕ
third zero = err value_error
third (suc zero) = err value_error
third (suc (suc n)) = ok 7
