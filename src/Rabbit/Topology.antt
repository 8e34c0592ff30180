-- ===== src/Rabbit/Topology.antt =====
-- common/cloudrm/rabbit.py: `declare_topology`, as the declarations that it sends to the broker,
-- and the queue that `RabbitConsumer.start` takes from it.
use cloud_multi_agent_manage.Prelude.{
  String, Option, none, some, List, [], ◌∷◌, ◌++◌, map, if◌then◌else◌,
}
use cloud_multi_agent_manage.Prelude.Int.{ℤ}
use cloud_multi_agent_manage.Platform.{Result, ok, err, runtime_error}
use cloud_multi_agent_manage.Python.{is_one_of}
use cloud_multi_agent_manage.Rabbit.Settings.{RabbitMqSettings}

pub data Declaration : Type 0 where
  topic_exchange : String → Declaration
  -- a durable queue, its x-dead-letter-exchange and its x-message-ttl
  durable_queue : String → Option String → Option ℤ → Declaration
  -- queue, exchange, routing key
  binding : String → String → String → Declaration

-- The inner loop, over the routing keys of one queue.
unfoldable pub bind_all : String → String → List String → List Declaration
bind_all exchange queue [] = []
bind_all exchange queue (k ∷ ks) = binding queue exchange k ∷ bind_all exchange queue ks

-- The outer loop, over `settings.queues`.
unfoldable pub declare_queues : String → String → List (String × List String) → List Declaration
unfolding bind_all
declare_queues exchange dlx [] = []
declare_queues exchange dlx ((q, ks) ∷ qs) =
    durable_queue q (some dlx) none ∷ (bind_all exchange q ks ++ declare_queues exchange dlx qs)

unfoldable pub declare_topology : RabbitMqSettings → List Declaration
unfolding declare_queues
declare_topology s =
    topic_exchange s.exchange
    ∷ topic_exchange s.dlx
    ∷ topic_exchange s.retry_exchange
    ∷ (declare_queues s.exchange s.dlx s.queues
        ++ (durable_queue "queue.dead" none none
            ∷ binding "queue.dead" s.dlx "#"
            ∷ durable_queue "queue.retry" (some s.exchange) (some s.retry_ttl_ms)
            ∷ binding "queue.retry" s.retry_exchange "#"
            ∷ []))

-- The names that stand in the dict `declared`.
unfoldable pub declared : RabbitMqSettings → List String
declared s =
    s.exchange
    ∷ s.dlx
    ∷ s.retry_exchange
    ∷ (map (λ q. q.0) s.queues ++ ("queue.dead" ∷ "queue.retry" ∷ []))

-- `topology.get(self.queue_name)`, or the error of `RabbitConsumer.start`.
unfoldable pub start_queue : RabbitMqSettings → String → Result String
unfolding declared
start_queue s queue_name =
    if is_one_of queue_name (declared s)
    then ok queue_name
    else err (runtime_error "RabbitMQ queue is not declared")
