-- ===== src/Api/Started.antt =====
-- The start of the API against the start of the agents.
use cloud_multi_agent_manage.Prelude.{
  ℕ, ◌≡◌, ◌≢◌, refl, ap, ◌∙◌, String, false, Option, none, some, [], ◌∷◌, arith, inl, inr,
}
use cloud_multi_agent_manage.Value.{Value, dict, empty, is_empty}
use cloud_multi_agent_manage.Platform.{Platform, Result, ok, err}
use cloud_multi_agent_manage.Python.{get_nested}
use cloud_multi_agent_manage.Exec.{Backend, other}
use cloud_multi_agent_manage.Rabbit.Settings.{RabbitMqSettings, from_config, queue_for_service}
use cloud_multi_agent_manage.Runtime.{uses_kafka, uses_rabbit}
use cloud_multi_agent_manage.Runtime.Setting.{
  api_backend, event_backend, api_backend-eq-event_backend,
}
use cloud_multi_agent_manage.Runtime.Service.{
  ServiceRuntime, Clients, Start, new, ◌>>◌, when, continue,
}
use cloud_multi_agent_manage.Runtime.Start.{
  retry_of, start_storage, open_channel, start, start_brokers, start_kafka, start_rabbit,
}
use cloud_multi_agent_manage.Api.Start.{start_bus, start_publisher, start_state}

abbrev pub unready : Result (Unit {0}) × ServiceRuntime → Result (Unit {0}) × ServiceRuntime
unready (q, r) = (q, record r { ready = false })

module _ ⦃p : Platform⦄ where
  open p use {F}

  module _ (clients : Clients F) (settings : RabbitMqSettings) (n : ℕ) where
    start_kafka-start_bus :
        (self r : ServiceRuntime)
        → self.topics ≡ []
        → start_kafka clients self n r ≡ start_bus clients n r
    unfolding start_kafka start_bus is_empty
    start_kafka-start_bus self r t = rw t (ground arith)

    start_rabbit-start_publisher :
        (self r : ServiceRuntime)
        → queue_for_service self.service_name ≡ none
        → start_rabbit clients settings self n r ≡ start_publisher clients settings n r
    unfolding start_rabbit start_publisher
    start_rabbit-start_publisher self r q = rw q (ground arith)

    start_bus-ready : (r : ServiceRuntime) → (start_bus clients n r).1.ready ≡ r.ready
    unfolding start_bus
    start_bus-ready r = ground arith

    start_publisher-ready :
        (r : ServiceRuntime) → (start_publisher clients settings n r).1.ready ≡ r.ready
    unfolding start_publisher open_channel
    start_publisher-ready r = ground arith

    -- A service without topics and without a queue starts its brokers as the API does.
    start_brokers-unready :
        (backend : Backend) (r : ServiceRuntime)
        → r.topics ≡ []
        → queue_for_service r.service_name ≡ none
        → r.ready ≡ false
        → (when (uses_kafka backend) (start_bus clients n)
              >> when (uses_rabbit backend) (start_publisher clients settings n))
            r
          ≡ unready (start_brokers clients settings backend n r)
    unfolding start_brokers
    start_brokers-unready backend r t q e = ground (
      arith,
      start_kafka-start_bus r r t,
      start_rabbit-start_publisher r r q,
      start_rabbit-start_publisher r (start_bus clients n r).1 q,
      start_bus-ready r,
      start_publisher-ready r,
      start_publisher-ready (start_bus clients n r).1,
    )

    start_storage-new :
        (config : Value F) (r : ServiceRuntime)
        → r.bus ≡ false
        → r.rabbit ≡ false
        → record ((start_storage clients config n r).1) { bus = false; rabbit = false }
          ≡ (start_storage clients config n r).1
    unfolding start_storage
    start_storage-new config r b k = ground arith

    start_storage-kept :
        (config : Value F) (r : ServiceRuntime)
        → let s = (start_storage clients config n r).1 in
          (s.topics ≡ r.topics) × (s.service_name ≡ r.service_name) × (s.ready ≡ r.ready)
    unfolding start_storage
    start_storage-kept config r = (ground arith, ground arith, ground arith)

  -- An error is the same on both sides, where `ready` is not set.
  call-unready :
      {A : Type 0} (c : Result A) (f g : A → Start (Unit {0})) (r : ServiceRuntime)
      → r.ready ≡ false
      → ((a : A) → f a r ≡ unready (g a r))
      → continue c f r ≡ unready (continue c g r)
  call-unready (ok a) f g r e h = h a
  call-unready (err x) f g r e h = λ i. (err x, record r { ready = e i })

  -- Where the setting of the backend is one that the agents accept, and whatever the dependencies
  -- answer, the start of the API gives what the start of an agent without topics and without a queue
  -- gives: it raises the same error or none, and it holds the same handles then. Only `ready`, which
  -- the API has not, stays unset.
  pub start_state-start :
      (clients : Clients F) (config : Value F) (env : Option String)
      → api_backend config env ≢ other
      → let r = new "api-service" [] in
        start_state clients config env r ≡ unready (start clients config env r)
  unfolding start_state start queue_for_service
  start_state-start clients config env known =
      let r = new "api-service" [] in
      let e : event_backend config env ≡ ok (api_backend config env) =
        elim (api_backend-eq-event_backend config env) [
          | inl (a, b) ↦ a
          | inr (a, b) ↦ absurd (known b)
        ] in
      let b = api_backend config env in
      rw e (
        call-unready (retry_of (get_nested config ("system" ∷ "retry" ∷ []) (dict empty))) _ _ r
          refl
          (λ (n, delay). call-unready (from_config config) _ _ r refl (λ settings.
            let r' : ServiceRuntime = record r {
              rabbit_settings = some settings;
              event_backend = b;
            } in
            let q = start_storage clients config n r' in
            let (t, s, k) = start_storage-kept clients settings n config r' in
            call-unready q.0 _ (λ _. start_brokers clients settings b n) q.1 k
              (λ _.
                ap
                  (when (uses_kafka b) (start_bus clients n)
                    >> when (uses_rabbit b) (start_publisher clients settings n))
                  (start_storage-new clients settings n config r' refl refl)
                ∙ start_brokers-unready clients settings n b q.1 t (ap queue_for_service s) k))))
