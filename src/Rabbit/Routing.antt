-- ===== src/Rabbit/Routing.antt =====
-- common/cloudrm/rabbit.py: where the broker brings a message, by the bindings of
-- `declare_topology`, and where it brings a message that comes back from the queue of retries.
use cloud_multi_agent_manage.Prelude.{
  ◌≡◌, refl, sym, ap, subst, inl, inr, String, Bool, true, false, Option, none, some, List, [], ◌∷◌,
  ◌++◌, ◌∙◌, map, arith, ◌&&◌, In, In-left, In-right, str_eq, eq_refl, Bool-cases, if◌then◌else◌,
}
use mathlib.Core.List.{append_assoc}
use cloud_multi_agent_manage.Prelude.Int.{ℤ}
use cloud_multi_agent_manage.Platform.{Platform}
use cloud_multi_agent_manage.Python.{is_one_of}
use cloud_multi_agent_manage.Rabbit.Settings.{RabbitMqSettings}
use cloud_multi_agent_manage.Rabbit.Topology.{
  Declaration, topic_exchange, durable_queue, binding, bind_all, declare_queues, declare_topology,
}
use cloud_multi_agent_manage.Rabbit.Message.{Message}
use cloud_multi_agent_manage.Rabbit.Consumer.{retry_message}

-- The exchange to which a queue passes a message on when its time to live is over: none where it sets
-- no time to live, or names no exchange.
unfoldable pub expired_to : List Declaration → String → Option String
expired_to [] queue = none
expired_to (topic_exchange n ∷ ds) queue = expired_to ds queue
expired_to (binding q x k ∷ ds) queue = expired_to ds queue
expired_to (durable_queue n d none ∷ ds) queue =
    let rest = expired_to ds queue in if str_eq queue n then none else rest
expired_to (durable_queue n d (some ttl) ∷ ds) queue =
    let rest = expired_to ds queue in if str_eq queue n then d else rest

expired_to-bind_all :
    (x q queue : String) (ks : List String) (ds : List Declaration)
    → expired_to (bind_all x q ks ++ ds) queue ≡ expired_to ds queue
unfolding expired_to bind_all
expired_to-bind_all x q queue [] ds = refl
expired_to-bind_all x q queue (k ∷ ks) ds = expired_to-bind_all x q queue ks ds

expired_to-declare_queues :
    (x dlx queue : String) (qs : List (String × List String)) (ds : List Declaration)
    → is_one_of queue (map (λ e. e.0) qs) ≡ false
    → expired_to (declare_queues x dlx qs ++ ds) queue ≡ expired_to ds queue
unfolding expired_to declare_queues
expired_to-declare_queues x dlx queue [] ds h = refl
expired_to-declare_queues x dlx queue ((q, ks) ∷ qs) ds h = elim (Bool-cases (str_eq queue q)) [
  | inl e ↦ absurd (ground (arith, e))
  | inr e ↦ rw (append_assoc (bind_all x q ks) (declare_queues x dlx qs) ds) (
      rw e (
        expired_to-bind_all x q queue ks (declare_queues x dlx qs ++ ds)
        ∙ expired_to-declare_queues x dlx queue qs ds (ground (arith, e))))
]

expired_to-declare_topology :
    (s : RabbitMqSettings)
    → is_one_of "queue.retry" (map (λ e. e.0) s.queues) ≡ false
    → expired_to (declare_topology s) "queue.retry" ≡ some s.exchange
unfolding expired_to declare_topology
expired_to-declare_topology s h =
    expired_to-declare_queues s.exchange s.dlx "queue.retry" s.queues _ h

-- `matches` is the test of a topic exchange: a binding's key, and the routing key of a message.
module _ (matches : String → String → Bool) where
  -- The queues that an exchange brings a message to.
  unfoldable pub delivered_to : List Declaration → String → String → List String
  delivered_to [] exchange key = []
  delivered_to (topic_exchange n ∷ ds) exchange key = delivered_to ds exchange key
  delivered_to (durable_queue n d t ∷ ds) exchange key = delivered_to ds exchange key
  delivered_to (binding queue x k ∷ ds) exchange key =
      let rest = delivered_to ds exchange key in
      if str_eq x exchange && matches k key then queue ∷ rest else rest

  In-append :
      (q : String) (ds es : List Declaration) (x key : String)
      → In q (delivered_to ds x key)
      → In q (delivered_to (ds ++ es) x key)
  unfolding delivered_to
  In-append q [] es x key i = absurd i
  In-append q (topic_exchange n ∷ ds) es x key i = In-append q ds es x key i
  In-append q (durable_queue n d t ∷ ds) es x key i = In-append q ds es x key i
  In-append q (binding queue y k ∷ ds) es x key i =
      elim (Bool-cases (str_eq y x && matches k key)) [
        | inl e ↦ rw e (elim (rw e at i) [
          | inl here ↦ inl here
          | inr later ↦ inr (In-append q ds es x key later)
        ])
        | inr e ↦ rw e (In-append q ds es x key (rw e at i))
      ]

  In-append_right :
      (q : String) (ds es : List Declaration) (x key : String)
      → In q (delivered_to es x key)
      → In q (delivered_to (ds ++ es) x key)
  unfolding delivered_to
  In-append_right q [] es x key i = i
  In-append_right q (topic_exchange n ∷ ds) es x key i = In-append_right q ds es x key i
  In-append_right q (durable_queue n d t ∷ ds) es x key i = In-append_right q ds es x key i
  In-append_right q (binding queue y k ∷ ds) es x key i =
      elim (Bool-cases (str_eq y x && matches k key)) [
        | inl e ↦ rw e (inr (In-append_right q ds es x key i))
        | inr e ↦ rw e (In-append_right q ds es x key i)
      ]

  In-bind_all :
      (x q k key : String) (ks : List String)
      → In k ks
      → matches k key ≡ true
      → In q (delivered_to (bind_all x q ks) x key)
  unfolding delivered_to bind_all
  In-bind_all x q k key [] i m = absurd i
  In-bind_all x q k key (l ∷ ks) (inl here) m = rw (eq_refl x) (rw⁻¹ here (rw m (inl refl)))
  In-bind_all x q k key (l ∷ ks) (inr later) m = elim (Bool-cases (str_eq x x && matches l key)) [
    | inl e ↦ rw e (inl refl)
    | inr e ↦ rw e (In-bind_all x q k key ks later m)
  ]

  In-declare_queues :
      (x dlx q k key : String) (ks : List String) (qs : List (String × List String))
      → In (q, ks) qs
      → In k ks
      → matches k key ≡ true
      → In q (delivered_to (declare_queues x dlx qs) x key)
  unfolding delivered_to declare_queues
  In-declare_queues x dlx q k key ks [] i j m = absurd i
  In-declare_queues x dlx q k key ks ((r, ls) ∷ qs) (inl here) j m =
      let j' = subst (In k) (ap (λ y. y.1) here) j in
      subst (λ y. In y (delivered_to (bind_all x r ls ++ declare_queues x dlx qs) x key))
        (sym (ap (λ y. y.0) here))
        (In-append r (bind_all x r ls) (declare_queues x dlx qs) x key
          (In-bind_all x r k key ls j' m))
  In-declare_queues x dlx q k key ks ((r, ls) ∷ qs) (inr later) j m =
      In-append_right q (bind_all x r ls) (declare_queues x dlx qs) x key
        (In-declare_queues x dlx q k key ks qs later j m)

  -- A queue receives what one of its keys matches.
  pub In-declare_topology :
      (s : RabbitMqSettings) (q k key : String) (ks : List String)
      → In (q, ks) s.queues
      → In k ks
      → matches k key ≡ true
      → In q (delivered_to (declare_topology s) s.exchange key)
  unfolding delivered_to declare_topology
  In-declare_topology s q k key ks i j m =
      In-append q (declare_queues s.exchange s.dlx s.queues) _ s.exchange key
        (In-declare_queues s.exchange s.dlx q k key ks s.queues i j m)

  -- Where a broker passes a message on that it was sent through an exchange, if one is named.
  abbrev passed_on : List Declaration → Option String → String → List String
  passed_on ds none key = []
  passed_on ds (some x) key = delivered_to ds x key

  -- Where the messages come that expire in some queues: under their routing key, to the exchange that
  -- each queue names.
  unfoldable pub expired_from : List Declaration → List String → String → List String
  unfolding expired_to delivered_to
  expired_from ds [] key = []
  expired_from ds (q ∷ qs) key = passed_on ds (expired_to ds q) key ++ expired_from ds qs key

  In-expired_from :
      (ds : List Declaration) (r q x key : String) (qs : List String)
      → expired_to ds r ≡ some x
      → In r qs
      → In q (delivered_to ds x key)
      → In q (expired_from ds qs key)
  unfolding expired_from
  In-expired_from ds r q x key [] e i j = absurd i
  In-expired_from ds r q x key (u ∷ qs) e (inl here) j =
      In-left q (passed_on ds (expired_to ds u) key) (expired_from ds qs key) (rw⁻¹ here (rw e j))
  In-expired_from ds r q x key (u ∷ qs) e (inr later) j =
      In-right q (passed_on ds (expired_to ds u) key) (expired_from ds qs key)
        (In-expired_from ds r q x key qs e later j)

  -- The queue of retries takes what is sent to the exchange of retries.
  In-retry_queue :
      (s : RabbitMqSettings) (key : String)
      → matches "#" key ≡ true
      → In "queue.retry" (delivered_to (declare_topology s) s.retry_exchange key)
  unfolding delivered_to declare_topology
  In-retry_queue s key m =
      In-append_right "queue.retry" (declare_queues s.exchange s.dlx s.queues) _ s.retry_exchange
        key
        (elim (Bool-cases (str_eq s.dlx s.retry_exchange)) [
          | inl e ↦ rw (e, m, eq_refl s.retry_exchange) (inr (inl refl))
          | inr e ↦ rw (e, m, eq_refl s.retry_exchange) (inl refl)
        ])

  module _ ⦃p : Platform⦄ where
    open p use {F}

    -- Where the message of a retry comes back: it is republished to the exchange of retries, and
    -- whatever queue takes it there passes it on when its time to live is over.
    unfoldable pub retried_to : RabbitMqSettings → Message F → ℤ → List String
    unfolding expired_from delivered_to declare_topology retry_message
    retried_to s m count =
        let ds = declare_topology s in
        let key = (retry_message m count).routing_key in
        expired_from ds (delivered_to ds s.retry_exchange key) key

    -- A message whose handler failed in one queue comes back to every queue that is bound to its
    -- routing key by that very key, and so also to those services that had handled it. The broker's
    -- test must let "#" match every key and a key without wildcards match itself, the routing key is not
    -- empty, and no queue of a service has the name of the queue of retries.
    pub In-retried_to :
        (s : RabbitMqSettings) (m : Message F) (count : ℤ) (q : String) (ks : List String)
        → is_one_of "queue.retry" (map (λ e. e.0) s.queues) ≡ false
        → str_eq m.routing_key "" ≡ false
        → matches "#" m.routing_key ≡ true
        → matches m.routing_key m.routing_key ≡ true
        → In (q, ks) s.queues
        → In m.routing_key ks
        → In q (retried_to s m count)
    unfolding retry_message retried_to
    In-retried_to s m count q ks free n all x i j =
        let ds = declare_topology s in
        rw n (
          In-expired_from ds "queue.retry" q s.exchange m.routing_key
            (delivered_to ds s.retry_exchange m.routing_key) (expired_to-declare_topology s free)
            (In-retry_queue s m.routing_key all)
            (In-declare_topology s q m.routing_key m.routing_key ks i j x))
