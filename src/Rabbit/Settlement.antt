-- ===== src/Rabbit/Settlement.antt =====
-- What the consumer's loop does to each message: it settles it once, or the loop ends.
use cloud_multi_agent_manage.Prelude.{ℕ, suc, String, ◌≡◌, Bool, Option, none, List, [], ◌∷◌, arith}
use cloud_multi_agent_manage.Message.{EventEnvelope}
use cloud_multi_agent_manage.Platform.{Platform}
use cloud_multi_agent_manage.Rabbit.Message.{Message}
use cloud_multi_agent_manage.Rabbit.Consumer.{
  Effect, ack, reject, republish, count_dead, Outcome, next, deliver, events,
}

module _ ⦃p : Platform⦄ where
  open p use {F}

  -- How often a list of effects acknowledges or rejects a message.
  abbrev pub settlements : List (Effect F) → ℕ
  settlements [] = 0
  settlements (ack m ∷ es) = suc (settlements es)
  settlements (reject m ∷ es) = suc (settlements es)
  settlements (republish m ∷ es) = settlements es
  settlements (count_dead r ∷ es) = settlements es

  module _ (decode : String → Option (EventEnvelope F)) where
    -- A pass that lets the loop go on has settled its message exactly once, whether the worker
    -- committed or failed, the message was expired, or there was no retry exchange.
    pub deliver-settlements :
        (retry : Bool) (now : ℕ) (body : EventEnvelope F → Outcome) (m : Message F)
        (es : List (Effect F))
        → deliver decode retry now body m ≡ next es
        → settlements es ≡ 1
    unfolding deliver
    deliver-settlements retry now body m es h = ground arith

    -- A message whose body does not decode ends the loop: whatever messages follow it in the
    -- iterator, none of them is handled.
    pub events-undecodable :
        (retry : Bool) (now : ℕ) (body : EventEnvelope F → Outcome) (m : Message F)
        (ms : List (Message F))
        → decode m.body ≡ none
        → (events decode retry now body (m ∷ ms)).1 ≡ ms
    unfolding events
    events-undecodable retry now body m ms h = ground arith
