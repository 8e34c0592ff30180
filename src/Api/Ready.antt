-- ===== src/Api/Ready.antt =====
-- services/api_service/main.py: `health` and `ready`. `env` is `os.environ.get("SERVICE_NAME")`.
use cloud_multi_agent_manage.Prelude.{
  ℕ, ◌≡◌, String, not, Option, [], ◌∷◌, ◌&&◌, ◌||◌, ◌==◌, arith, if◌then◌else◌,
}
use cloud_multi_agent_manage.Platform.{Platform}
use cloud_multi_agent_manage.Platform.Results.{is_ok}
use cloud_multi_agent_manage.Exec.{Backend}
use cloud_multi_agent_manage.Runtime.{uses_kafka, uses_rabbit}
use cloud_multi_agent_manage.Runtime.Setting.{or_default}
use cloud_multi_agent_manage.Runtime.Health.{
  HealthResponse, Pings, status_ok, degraded, process, component_of, broker_components, all_ok,
  is_status_ok,
}

abbrev pub health : Option String → HealthResponse
health env = record {
  service = or_default env "api-service";
  status = status_ok;
  components = process ∷ [];
}

module _ ⦃p : Platform⦄ where
  -- The status code of the answer, and its body.
  unfoldable pub ready : Backend → Option String → Pings → ℕ × HealthResponse
  ready backend env pings =
      let components =
        component_of "postgres" pings.db
        ∷ component_of "redis" pings.redis
        ∷ broker_components (uses_kafka backend) (uses_rabbit backend) pings.kafka pings.rabbitmq in
      let status = if all_ok components then status_ok else degraded in
      (
        if is_status_ok status then 200 else 503,
        record { service = or_default env "api-service"; status = status; components = components },
      )

  -- `ready` answers 200 exactly where the database, Redis and each broker that the backend uses
  -- answer their pings; for a backend that is none of the three, no broker is asked.
  pub ready_lem :
      (backend : Backend) (env : Option String) (pings : Pings)
      → ((ready backend env pings).0 == 200) ≡ (
          is_ok pings.db
          && is_ok pings.redis
          && (not (uses_kafka backend) || is_ok pings.kafka)
          && (not (uses_rabbit backend) || is_ok pings.rabbitmq))
  unfolding ready
  ready_lem backend env pings = ground arith
