-- ===== src/Examples/BrokerTests.antt =====
-- The workers, the life of a service and the routing of messages at concrete inputs.
use cloud_multi_agent_manage.Prelude.{ℕ, ◌≡◌, refl, inl, inr, true, some, List, [], ◌∷◌, String, In}
use cloud_multi_agent_manage.Prelude.Int.{pos}
use cloud_multi_agent_manage.Value.{lookup, get_or}
use cloud_multi_agent_manage.Platform.{value_error}
use cloud_multi_agent_manage.Message.{EventEnvelope}
use cloud_multi_agent_manage.Exec.{Exec, raise}
use cloud_multi_agent_manage.Rabbit.Settings.{default_settings, queue_for_service}
use cloud_multi_agent_manage.Rabbit.Topology.{declare_topology}
use cloud_multi_agent_manage.Rabbit.Message.{Message, message_of}
use cloud_multi_agent_manage.Rabbit.Routing.{delivered_to, retried_to, In-retried_to}
use cloud_multi_agent_manage.Rabbit.Subscribed.{topics-In}
use cloud_multi_agent_manage.Worker.{attend, serve}
use cloud_multi_agent_manage.Worker.Settled.{Settles, serve-Settles, serve-undecodable}
use cloud_multi_agent_manage.Runtime.Service.{new}
use cloud_multi_agent_manage.Examples.Toy.{toy}
use cloud_multi_agent_manage.Examples.ToyTopic.{broker_match, toy-IsTopicMatch}
use cloud_multi_agent_manage.Examples.Tests.{world, note, decode, message}

-- A handler that always raises.
abbrev raising : EventEnvelope ℕ → Exec ⦃p = toy⦄ (Unit {0})
raising e = raise ⦃p = toy⦄ value_error

abbrev good : List (Message ℕ)
good = message ∷ message ∷ []

serve-Settles_example :
    Settles ⦃p = toy⦄ decode true 7 raising good
      (serve ⦃p = toy⦄ decode true 7 (attend ⦃p = toy⦄ raising) good (world []))
unfolding message_of get_or lookup
serve-Settles_example =
    serve-Settles ⦃p = toy⦄ decode true 7 raising good (world [])
      (((pos 0, pos 3, refl, refl), note, refl), (((pos 0, pos 3, refl, refl), note, refl), tt))

serve-undecodable_example :
    let r =
      serve ⦃p = toy⦄ decode true 7
        (attend ⦃p = toy⦄ raising)
        (record message { body = "no note" } ∷ good)
        (world []) in
    (r.unread ≡ good) × (r.world ≡ world [])
serve-undecodable_example =
    serve-undecodable ⦃p = toy⦄ decode true 7 (attend ⦃p = toy⦄ raising)
      (record message { body = "no note" }) good (world []) refl

In-retried_to_example : In "queue.coordinator" (
    retried_to broker_match ⦃p = toy⦄ default_settings
      (record message { routing_key = "request.classified" })
      (pos 0))
In-retried_to_example =
    In-retried_to broker_match ⦃p = toy⦄ default_settings
      (record message { routing_key = "request.classified" }) (pos 0) "queue.coordinator"
      ("request.classified" ∷ "node.proposal.*" ∷ "sla.*" ∷ "forecast.*" ∷ "node.unavailable" ∷ [])
      refl refl refl refl (inr (inr (inr (inr (inl refl))))) (inl refl)

topics-In_example :
    (q : String) × (queue_for_service "sla-agent" ≡ some q)
    × In q (
        delivered_to broker_match (declare_topology default_settings) "mas.events" "execution.done")
topics-In_example =
    topics-In broker_match toy-IsTopicMatch default_settings refl
      (new "sla-agent" ("request.classified" ∷ "execution.done" ∷ "execution.failed" ∷ []))
      "execution.done" (inr (inr (inl refl))) (inr (inl refl))
