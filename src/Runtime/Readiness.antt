-- ===== src/Runtime/Readiness.antt =====
-- When a service says that it is ready.
use cloud_multi_agent_manage.Prelude.{
  ℕ, ◌≡◌, refl, ◌∙◌, String, false, Option, some, [], ◌∷◌, arith,
}
use cloud_multi_agent_manage.Value.{Value, dict, empty}
use cloud_multi_agent_manage.Platform.{Platform, Result, ok, err}
use cloud_multi_agent_manage.Platform.Results.{is_ok}
use cloud_multi_agent_manage.Exec.{Backend}
use cloud_multi_agent_manage.Rabbit.Settings.{RabbitMqSettings, from_config}
use cloud_multi_agent_manage.Python.{get_nested}
use cloud_multi_agent_manage.Runtime.Setting.{event_backend}
use cloud_multi_agent_manage.Runtime.Service.{ServiceRuntime, Clients, Start, continue}
use cloud_multi_agent_manage.Runtime.Start.{
  start, start_storage, start_kafka, start_rabbit, start_consumer, open_channel, start_brokers,
  retry_of,
}

module _ ⦃p : Platform⦄ where
  open p use {F}

  open_channel-ready :
      (clients : Clients F) (connect : ℕ → Result (Unit {0})) (settings : RabbitMqSettings) (n : ℕ)
      (r : ServiceRuntime)
      → (open_channel clients connect settings n r).1 ≡ r
  unfolding open_channel
  open_channel-ready clients connect settings n r = ground arith

  start_storage-ready :
      (clients : Clients F) (config : Value F) (n : ℕ) (r : ServiceRuntime)
      → (start_storage clients config n r).1.ready ≡ r.ready
  unfolding start_storage
  start_storage-ready clients config n r = ground arith

  start_kafka-ready :
      (clients : Clients F) (self : ServiceRuntime) (n : ℕ) (r : ServiceRuntime)
      → (start_kafka clients self n r).1.ready ≡ r.ready
  unfolding start_kafka
  start_kafka-ready clients self n r = ground arith

  start_rabbit-ready :
      (clients : Clients F) (settings : RabbitMqSettings) (self : ServiceRuntime) (n : ℕ)
      (r : ServiceRuntime)
      → (start_rabbit clients settings self n r).1.ready ≡ r.ready
  unfolding start_rabbit start_consumer open_channel
  start_rabbit-ready clients settings self n r = ground arith

  start_brokers-ready :
      (clients : Clients F) (settings : RabbitMqSettings) (backend : Backend) (n : ℕ)
      (r : ServiceRuntime)
      → is_ok (start_brokers clients settings backend n r).0 ≡ false
      → (start_brokers clients settings backend n r).1.ready ≡ r.ready
  unfolding start_brokers
  start_brokers-ready clients settings backend n r h = ground (
    arith,
    start_kafka-ready clients r n r,
    start_rabbit-ready clients settings r n r,
    start_rabbit-ready clients settings r n (start_kafka clients r n r).1,
  )

  -- A start that raised has left `ready` as it was.
  abbrev IsUnready : {A : Type 0} → Result A × ServiceRuntime → ServiceRuntime → Type 0
  IsUnready q r = is_ok q.0 ≡ false → q.1.ready ≡ r.ready

  call-IsUnready :
      {A B : Type 0} (c : Result A) (f : A → Start B) (r : ServiceRuntime)
      → ((a : A) → IsUnready (f a r) r)
      → IsUnready (continue c f r) r
  call-IsUnready (ok a) f r h = h a
  call-IsUnready (err x) f r h = λ _. refl

  then-IsUnready :
      {A B : Type 0} (q : Result A × ServiceRuntime) (f : A → Start B) (r : ServiceRuntime)
      → q.1.ready ≡ r.ready
      → ((a : A) → IsUnready (f a q.1) q.1)
      → IsUnready (continue q.0 f q.1) r
  then-IsUnready (ok a, r') f r e h = λ n. h a n ∙ e
  then-IsUnready (err x, r') f r e h = λ n. e

  pub start-IsUnready :
      (clients : Clients F) (config : Value F) (env : Option String) (r : ServiceRuntime)
      → is_ok (start clients config env r).0 ≡ false
      → (start clients config env r).1.ready ≡ r.ready
  unfolding start
  start-IsUnready clients config env r =
      call-IsUnready (retry_of (get_nested config ("system" ∷ "retry" ∷ []) (dict empty))) _ r
        (λ (attempts, delay). call-IsUnready (from_config config) _ r (λ settings.
          call-IsUnready (event_backend config env) _ (record r { rabbit_settings = some settings })
            (λ backend.
              let r' : ServiceRuntime = record r {
                rabbit_settings = some settings;
                event_backend = backend;
              } in
              then-IsUnready (start_storage clients config attempts r')
                (λ _. start_brokers clients settings backend attempts) r'
                (start_storage-ready clients config attempts r')
                (λ _.
                  start_brokers-ready clients settings backend attempts
                    (start_storage clients config attempts r').1))))
