-- ===== src/Rabbit/Subscribed.antt =====
-- The topics that the agents consume from Kafka, against the bindings of their queues in RabbitMQ.
use Prim.Native.String.{◌++◌ as text_append}
use Prim.Native.Char.{code}
use cloud_multi_agent_manage.Prelude.{
  ◌≡◌, refl, inl, inr, subst, sym, String, Bool, true, not, some, List, [], ◌∷◌, ◌&&◌, ◌==◌, In,
  All,
}
use cloud_multi_agent_manage.Rabbit.Settings.{RabbitMqSettings, default_queues, queue_for_service}
use cloud_multi_agent_manage.Rabbit.Topology.{declare_topology}
use cloud_multi_agent_manage.Rabbit.Routing.{delivered_to, In-declare_topology}
use cloud_multi_agent_manage.Runtime.Service.{ServiceRuntime}
use cloud_multi_agent_manage.QueueAgent.Service as queue
use cloud_multi_agent_manage.ResourceAgent.Service as resource
use cloud_multi_agent_manage.SlaAgent.Service as sla
use cloud_multi_agent_manage.Forecast.Service as forecast
use cloud_multi_agent_manage.Coordinator.Service as coordinator
use cloud_multi_agent_manage.ExecutorAgent.Service as executor
use cloud_multi_agent_manage.ScaleAgent.Service as scale

-- One word of a routing key: no dot.
unfoldable pub is_word : String → Bool
is_word String.[] = true
is_word (String.◌∷◌ c s) = let rest = is_word s in not (code c == b'.') && rest

-- What AMQP says of the keys of a topic exchange, as far as the bindings use it: a key matches
-- itself, and a last word "*" stands for any one word.
pub record IsTopicMatch (matches : String → String → Bool) : Type 0 where
  pub exact : (k : String) → matches k k ≡ true
  pub star :
      (k w : String)
      → is_word w ≡ true
      → matches (text_append k ".*") (text_append k (text_append "." w)) ≡ true

-- The agents, as their modules construct them.
abbrev pub agents : List ServiceRuntime
agents =
    queue.runtime ∷ resource.runtime ∷ sla.runtime ∷ forecast.runtime ∷ coordinator.runtime
    ∷ executor.runtime ∷ scale.runtime ∷ []

All-In : {A : Type 0} (P : A → Type 0) (x : A) (l : List A) → All P l → In x l → P x
All-In P x [] a i = absurd i
All-In P x (y ∷ l) (a, rest) (inl here) = subst P (sym here) a
All-In P x (y ∷ l) (a, rest) (inr later) = All-In P x l rest later

module _ (matches : String → String → Bool) (topic : IsTopicMatch matches) (s : RabbitMqSettings)
    (d : s.queues ≡ default_queues) where
  abbrev Reaches : String → String → Type 0
  Reaches q t = In q (delivered_to matches (declare_topology s) s.exchange t)

  bound :
      (q : String) (ks : List String)
      → In (q, ks) default_queues
      → (k t : String) → In k ks
      → matches k t ≡ true
      → Reaches q t
  bound q ks i k t j m = In-declare_topology matches s q k t ks (subst (In (q, ks)) (sym d) i) j m

  -- The agent has a queue, which receives its topics.
  abbrev IsServed : ServiceRuntime → Type 0
  IsServed r = (q : String) × (queue_for_service r.service_name ≡ some q) × All (Reaches q) r.topics

  agents_lem : All IsServed agents
  unfolding queue_for_service is_word
  agents_lem =
      let own_0 =
        bound "queue.requests" ("request.created" ∷ "sla.boost" ∷ "sla.risk" ∷ "scaling.done" ∷ [])
          (inl refl) in
      let own_1 =
        bound "queue.resources" ("need_placement" ∷ "node.metrics.*" ∷ "node.unavailable" ∷ [])
          (inr (inl refl)) in
      let own_2 =
        bound "queue.sla" ("request.classified" ∷ "decision.*" ∷ "execution.*" ∷ [])
          (inr (inr (inl refl))) in
      let own_3 =
        bound "queue.forecast" ("request.*" ∷ "queue.*" ∷ "execution.*" ∷ [])
          (inr (inr (inr (inl refl)))) in
      let own_4 =
        bound "queue.coordinator"
          ("request.classified" ∷ "node.proposal.*" ∷ "sla.*" ∷ "forecast.*" ∷ "node.unavailable"
            ∷ [])
          (inr (inr (inr (inr (inl refl))))) in
      let own_5 =
        bound "queue.executor" ("decision.dispatch" ∷ "node.unavailable" ∷ [])
          (inr (inr (inr (inr (inr (inl refl)))))) in
      let own_6 =
        bound "queue.scale" ("decision.scale" ∷ [])
          (inr (inr (inr (inr (inr (inr (inl refl))))))) in
      (
        (
          "queue.requests",
          refl,
          (
            own_0 "request.created" "request.created" (inl refl) (topic.exact "request.created"),
            (
              own_0 "sla.risk" "sla.risk" (inr (inr (inl refl))) (topic.exact "sla.risk"),
              (
                own_0 "sla.boost" "sla.boost" (inr (inl refl)) (topic.exact "sla.boost"),
                (
                  own_0 "scaling.done" "scaling.done" (inr (inr (inr (inl refl))))
                      (topic.exact "scaling.done"),
                  tt,
                ),
              ),
            ),
          ),
        ),
        (
          (
            "queue.resources",
            refl,
            (
              own_1 "need_placement" "need_placement" (inl refl) (topic.exact "need_placement"),
              (
                own_1 "node.unavailable" "node.unavailable" (inr (inr (inl refl)))
                    (topic.exact "node.unavailable"),
                tt,
              ),
            ),
          ),
          (
            (
              "queue.sla",
              refl,
              (
                own_2 "request.classified" "request.classified" (inl refl)
                    (topic.exact "request.classified"),
                (
                  own_2 "execution.*" "execution.done" (inr (inr (inl refl)))
                      (topic.star "execution" "done" refl),
                  (
                    own_2 "execution.*" "execution.failed" (inr (inr (inl refl)))
                        (topic.star "execution" "failed" refl),
                    tt,
                  ),
                ),
              ),
            ),
            (
              (
                "queue.forecast",
                refl,
                (
                  own_3 "request.*" "request.classified" (inl refl)
                      (topic.star "request" "classified" refl),
                  (
                    own_3 "execution.*" "execution.done" (inr (inr (inl refl)))
                        (topic.star "execution" "done" refl),
                    (
                      own_3 "execution.*" "execution.failed" (inr (inr (inl refl)))
                          (topic.star "execution" "failed" refl),
                      tt,
                    ),
                  ),
                ),
              ),
              (
                (
                  "queue.coordinator",
                  refl,
                  (
                    own_4 "request.classified" "request.classified" (inl refl)
                        (topic.exact "request.classified"),
                    (
                      own_4 "node.proposal.*" "node.proposal.fit" (inr (inl refl))
                          (topic.star "node.proposal" "fit" refl),
                      (
                        own_4 "sla.*" "sla.risk" (inr (inr (inl refl)))
                            (topic.star "sla" "risk" refl),
                        (
                          own_4 "forecast.*" "forecast.queue" (inr (inr (inr (inl refl))))
                              (topic.star "forecast" "queue" refl),
                          tt,
                        ),
                      ),
                    ),
                  ),
                ),
                (
                  (
                    "queue.executor",
                    refl,
                    (
                      own_5 "decision.dispatch" "decision.dispatch" (inl refl)
                          (topic.exact "decision.dispatch"),
                      (
                        own_5 "node.unavailable" "node.unavailable" (inr (inl refl))
                            (topic.exact "node.unavailable"),
                        tt,
                      ),
                    ),
                  ),
                  (
                    (
                      "queue.scale",
                      refl,
                      (
                        own_6 "decision.scale" "decision.scale" (inl refl)
                            (topic.exact "decision.scale"),
                        tt,
                      ),
                    ),
                    tt,
                  ),
                ),
              ),
            ),
          ),
        ),
      )

  -- With the default bindings, each agent has a queue in RabbitMQ, and that queue receives every
  -- event type that the agent subscribes to in Kafka: whichever of the two brokers is used, an agent
  -- misses none of its topics. The broker's test is as AMQP documents it.
  pub topics-In :
      (r : ServiceRuntime) (t : String)
      → In r agents
      → In t r.topics
      → (q : String) × (queue_for_service r.service_name ≡ some q)
        × In q (delivered_to matches (declare_topology s) s.exchange t)
  topics-In r t i j =
      let (q, e, reached) = All-In IsServed r agents agents_lem i in
      (q, e, All-In (Reaches q) t r.topics reached j)
