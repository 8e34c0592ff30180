-- ===== src/Rabbit/Bindings.antt =====
-- The declared topology: every agent finds its queue, and no queue is left without its dead-letter
-- exchange or its bindings.
use cloud_multi_agent_manage.Prelude.{
  String, ◌≡◌, true, some, List, [], ◌∷◌, ◌++◌, map, arith, eq_refl,
}
use cloud_multi_agent_manage.Value.{Value, dict, empty}
use cloud_multi_agent_manage.Platform.{Platform, ok}
use cloud_multi_agent_manage.Python.{is_one_of, get_nested}
use cloud_multi_agent_manage.Rabbit.Settings.{
  RabbitMqSettings, settings_of, from_config, queue_for_service, default_queues, text_lookup,
  service_queues,
}
use cloud_multi_agent_manage.Rabbit.Topology.{declared, start_queue}

is_one_of-append_left :
    (t : String) (xs ys : List String) → is_one_of t xs ≡ true → is_one_of t (xs ++ ys) ≡ true
is_one_of-append_left t [] ys h = ground arith
is_one_of-append_left t (x ∷ xs) ys h = ground (arith, is_one_of-append_left t xs ys)

mem-text_lookup :
    (k v : String) (d : List (String × String))
    → text_lookup k d ≡ some v
    → is_one_of v (map (λ e. e.1) d) ≡ true
mem-text_lookup k v [] h = cc
mem-text_lookup k v ((j, w) ∷ d) h = ground (arith, eq_refl v, mem-text_lookup k v d)

is_one_of-declared :
    (s : RabbitMqSettings) (q : String)
    → is_one_of q (map (λ e. e.0) s.queues) ≡ true
    → is_one_of q (declared s) ≡ true
unfolding declared
is_one_of-declared s q h =
    ground (
      arith,
      is_one_of-append_left q (map (λ e. e.0) s.queues) ("queue.dead" ∷ "queue.retry" ∷ []) h,
    )

module _ ⦃p : Platform⦄ where
  open p use {F}

  settings_of-queues :
      (raw : Value F) (s : RabbitMqSettings) → settings_of raw ≡ ok s → s.queues ≡ default_queues
  settings_of-queues raw s h = ground arith

  -- Every configuration that is read gives the default queues.
  pub from_config-queues :
      (config : Value F) (s : RabbitMqSettings)
      → from_config config ≡ ok s
      → s.queues ≡ default_queues
  unfolding from_config
  from_config-queues config s h =
      settings_of-queues (get_nested config ("rabbitmq" ∷ []) (dict empty)) s h

-- On the default queues, the consumer of every service that has a queue starts: the queue that
-- `queue_for_service` gives it is among those that `declare_topology` declares.
pub start_queue-queue_for_service :
    (s : RabbitMqSettings) (service_name queue_name : String)
    → s.queues ≡ default_queues
    → queue_for_service service_name ≡ some queue_name
    → start_queue s queue_name ≡ ok queue_name
unfolding start_queue queue_for_service
start_queue-queue_for_service s service_name queue_name q h =
    let named : is_one_of queue_name (map (λ e. e.0) default_queues) ≡ true =
      mem-text_lookup service_name queue_name service_queues h in
    let known : is_one_of queue_name (map (λ e. e.0) s.queues) ≡ true = rw q named in
    rw (is_one_of-declared s queue_name known)
