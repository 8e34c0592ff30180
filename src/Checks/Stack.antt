-- ===== src/Checks/Stack.antt =====
-- scripts/validate_runtime.py: the services that it checks, and what the world outside answers.
use Prim.Native.String.{String}
use text.Mathlib.Text.{starts_with}
use cloud_multi_agent_manage.Prelude.{ℕ, Bool, List, [], ◌∷◌, ◌||◌, str_eq}
use cloud_multi_agent_manage.Prelude.Int.{ℤ}
use cloud_multi_agent_manage.Value.{Value, Payload}
use cloud_multi_agent_manage.Platform.{Result}

-- `expected in output`
unfoldable pub contains : String → String → Bool
contains expected String.[] = str_eq expected ""
contains expected (String.◌∷◌ c s) =
    let rest = contains expected s in starts_with (String.◌∷◌ c s) expected || rest

-- SERVICES
abbrev pub services : List (String × String)
services =
    ("api-service", "http://localhost:8000")
    ∷ ("queue-agent", "http://localhost:8011")
    ∷ ("resource-agent", "http://localhost:8012")
    ∷ ("sla-agent", "http://localhost:8013")
    ∷ ("forecast-agent", "http://localhost:8014")
    ∷ ("coordinator-agent", "http://localhost:8015")
    ∷ ("executor-agent", "http://localhost:8016")
    ∷ ("load-generator", "http://localhost:8017")
    ∷ ("scale-agent", "http://localhost:8018")
    ∷ []

-- COMPOSE_SERVICES
abbrev pub compose_services : List String
compose_services =
    "kafka" ∷ "rabbitmq" ∷ "postgres" ∷ "redis" ∷ "api-service" ∷ "queue-agent" ∷ "resource-agent"
    ∷ "sla-agent" ∷ "forecast-agent" ∷ "coordinator-agent" ∷ "executor-agent" ∷ "scale-agent"
    ∷ "load-generator" ∷ "prometheus" ∷ "grafana" ∷ []

-- `subprocess.CompletedProcess`; `lines` is `stdout.splitlines()`.
pub record Completed : Type 0 where
  pub returncode : ℤ
  pub stdout : String
  pub stderr : String
  pub lines : List String

-- What the world outside answers. `get` is `http_json("GET", url)`, `get_plain` the status of
-- `http_request`, and `current i` the i-th reading of a task.
pub record Outside (F : Type 0) : Type 0 where
  pub has_docker : Bool
  pub run_command : List String → Result Completed
  pub connect : String → ℕ → Result (Unit {0})
  pub get : String → Result (ℕ × Value F)
  pub get_plain : String → Result ℕ
  pub post : Payload F → Result (ℕ × Value F)
  pub current : ℕ → String → Result (Value F)

abbrev pub ps_command : List String
ps_command = "docker" ∷ "compose" ∷ "ps" ∷ "--services" ∷ "--filter" ∷ "status=running" ∷ []
