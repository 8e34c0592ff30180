-- ===== src/Runtime/Available.antt =====
-- How the steps of a start go where its dependencies answer.
use cloud_multi_agent_manage.Prelude.{
  ℕ, ◌<◌, ◌≡◌, refl, inl, inr, ap, ◌∙◌, String, true, Option, none, some, List, [], ◌∷◌, ◌&&◌,
  arith, if◌then◌else◌, Option-cases,
}
use cloud_multi_agent_manage.Prelude.Int.{ℤ}
use cloud_multi_agent_manage.Value.{Value, null}
use cloud_multi_agent_manage.Platform.{Platform, Result, ok}
use cloud_multi_agent_manage.Python.{get_nested}
use cloud_multi_agent_manage.Schema.{Migration, execute_all, run_migrations, migrations}
use cloud_multi_agent_manage.Retry.{retry_async}
use cloud_multi_agent_manage.Retry.Laws.{Fails, retry_async-ok}
use cloud_multi_agent_manage.Rabbit.Connect.{
  connect_with_retry, renamed, connect_with_retry-eq-retry_async,
}
use cloud_multi_agent_manage.Rabbit.Settings.{RabbitMqSettings, queue_for_service, default_queues}
use cloud_multi_agent_manage.Rabbit.Topology.{Declaration, declare_topology, start_queue}
use cloud_multi_agent_manage.Rabbit.Bindings.{start_queue-queue_for_service}
use cloud_multi_agent_manage.Runtime.Service.{
  ServiceRuntime, Clients, kafka_consumer, rabbit_consumer, has_any,
}
use cloud_multi_agent_manage.Runtime.Start.{
  start_storage, start_kafka, start_rabbit, start_consumer, open_channel, declare_all, is_kafka,
}

-- Some call before the n-th succeeds, and those before it fail.
abbrev pub Answers : (ℕ → Result (Unit {0})) → ℕ → Type 0
Answers operation n =
    (t : ℕ) × (t < n) × ((i : ℕ) → i < t → Fails (operation i)) × (operation t ≡ ok tt)

retry_async-Answers :
    (operation : ℕ → Result (Unit {0})) (n : ℕ)
    → Answers operation n
    → (retry_async operation n).0 ≡ ok tt
retry_async-Answers operation n (t, l, f, s) = ap (λ r. r.0) (retry_async-ok operation n t tt l f s)

connect_with_retry-Answers :
    (connect : ℕ → Result (Unit {0})) (n : ℕ)
    → Answers connect n
    → (connect_with_retry connect n).0 ≡ ok tt
connect_with_retry-Answers connect n (t, l, f, s) =
    ap (λ r. r.0) (connect_with_retry-eq-retry_async connect n)
    ∙ ap (λ r. (renamed r).0) (retry_async-ok connect n t tt l f s)

execute_all-ok :
    (execute : Migration → Result (Unit {0})) (ms : List Migration)
    → ((m : Migration) → execute m ≡ ok tt)
    → execute_all execute ms ≡ ok tt
unfolding execute_all
execute_all-ok execute [] h = refl
execute_all-ok execute (m ∷ ms) h = rw (execute_all, h m) (execute_all-ok execute ms h)

declare_all-ok :
    (declare : Declaration → Result (Unit {0})) (ds : List Declaration)
    → ((d : Declaration) → declare d ≡ ok tt)
    → declare_all declare ds ≡ ok tt
unfolding declare_all
declare_all-ok declare [] h = refl
declare_all-ok declare (d ∷ ds) h = rw (declare_all, h d) (declare_all-ok declare ds h)

-- Everything that a start calls answers within n attempts, and what is called once succeeds.
pub record IsAvailable {F : Type 0} (clients : Clients F) (n : ℕ) : Type 0 where
  pub engine : (dsn : Value F) → clients.create_engine dsn ≡ ok tt
  pub database : Answers clients.ping_db n
  pub executes : (m : Migration) → clients.execute m ≡ ok tt
  pub cache : (url : Value F) → clients.create_redis url ≡ ok tt
  pub store : Answers clients.ping_redis n
  pub bus : Answers clients.ping_kafka n
  pub producer : clients.start_producer ≡ ok tt
  pub subscribes : (topics : List String) → clients.start_kafka_consumer topics ≡ ok tt
  pub broker : Answers clients.ping_rabbitmq n
  pub publisher : Answers clients.connect_publisher n
  pub subscriber : Answers clients.connect_consumer n
  pub opens : clients.channel ≡ ok tt
  pub limits : (prefetch : ℤ) → clients.set_qos prefetch ≡ ok tt
  pub declares : (d : Declaration) → clients.declare d ≡ ok tt

-- The handles after RabbitMQ has been started, where the service has that queue.
abbrev pub with_rabbit : Option String → ServiceRuntime → ServiceRuntime
with_rabbit none r = record r { rabbit = true }
with_rabbit (some q) r = record r {
  rabbit = true;
  rabbit_consumer = some q;
  consumer = some (rabbit_consumer q);
}

module _ ⦃p : Platform⦄ where
  open p use {F}

  module _ (clients : Clients F) (n : ℕ) (a : IsAvailable clients n) where
    open_channel_lem :
        (connect : ℕ → Result (Unit {0})) (settings : RabbitMqSettings) (r : ServiceRuntime)
        → Answers connect n
        → open_channel clients connect settings n r ≡ (ok tt, r)
    unfolding open_channel
    open_channel_lem connect settings r c =
        rw
          (
            connect_with_retry-Answers connect n c,
            a.opens,
            a.limits settings.prefetch,
            declare_all-ok clients.declare (declare_topology settings) a.declares,
          )
          refl

    start_consumer_lem :
        (settings : RabbitMqSettings) (q : String) (r : ServiceRuntime)
        → start_queue settings q ≡ ok q
        → start_consumer clients settings q n r
          ≡ (ok tt, record r { rabbit_consumer = some q; consumer = some (rabbit_consumer q) })
    unfolding start_consumer
    start_consumer_lem settings q r s =
        let r' : ServiceRuntime = record r { rabbit_consumer = some q } in
        rw (open_channel_lem clients.connect_consumer settings r' a.subscriber, s) refl

    pub start_storage_lem :
        (config : Value F) (r : ServiceRuntime)
        → start_storage clients config n r ≡ (ok tt, record r { db = true; redis = true })
    unfolding start_storage run_migrations
    start_storage_lem config r =
        rw
          (
            a.engine (get_nested config ("postgres" ∷ "dsn" ∷ []) null),
            retry_async-Answers clients.ping_db n a.database,
            execute_all-ok clients.execute migrations a.executes,
            a.cache (get_nested config ("redis" ∷ "url" ∷ []) null),
            retry_async-Answers clients.ping_redis n a.store,
          )
          refl

    pub start_kafka_lem :
        (r : ServiceRuntime)
        → start_kafka clients r n r ≡ (
          ok tt,
          record r {
            bus = true;
            consumer =
                if has_any r.topics && is_kafka r.event_backend
                then some kafka_consumer
                else r.consumer;
          },
        )
    unfolding start_kafka
    start_kafka_lem r =
        ground
          (arith, retry_async-Answers clients.ping_kafka n a.bus, a.producer, a.subscribes r.topics)

    pub start_rabbit_lem :
        (settings : RabbitMqSettings) (s r : ServiceRuntime)
        → settings.queues ≡ default_queues
        → start_rabbit clients settings s n r
          ≡ (ok tt, with_rabbit (queue_for_service s.service_name) r)
    unfolding start_rabbit
    start_rabbit_lem settings s r d =
        let r' : ServiceRuntime = record r { rabbit = true } in
        let ping = retry_async-Answers clients.ping_rabbitmq n a.broker in
        let opened = open_channel_lem clients.connect_publisher settings r' a.publisher in
        elim (Option-cases (queue_for_service s.service_name)) [
          | inl e ↦ rw (ping, opened, e) refl
          | inr (q, e) ↦
              rw
                (
                  ping,
                  opened,
                  e,
                  start_consumer_lem settings q r'
                      (start_queue-queue_for_service settings s.service_name q d e),
                )
                refl
        ]
