-- ===== src/Rabbit/Push.antt =====
-- common/cloudrm/rabbit.py: `RabbitConsumer.consume`, which calls a handler for each message. How
-- `message.process(requeue=False)` settles a message by the end of its body is an argument.
use cloud_multi_agent_manage.Prelude.{
  ◌≡◌, refl, true, ℕ, String, Bool, Option, none, some, List, if◌then◌else◌,
}
use cloud_multi_agent_manage.Message.{EventEnvelope, is_expired}
use cloud_multi_agent_manage.Platform.{Platform, Result, ok, err, runtime_error, value_error}
use cloud_multi_agent_manage.Exec.{World, Exec, pure, raise}
use cloud_multi_agent_manage.Rabbit.Message.{Message}
use cloud_multi_agent_manage.Rabbit.Consumer.{Effect}

module _ ⦃p : Platform⦄ where
  open p use {F}

  -- A handler of a message, with its envelope.
  abbrev pub Handler : Type 0
  Handler = EventEnvelope F → Message F → Exec (Unit {0})

  module _ (process : Message F → Result (Unit {0}) → List (Effect F))
      (decode : String → Option (EventEnvelope F)) (now : ℕ) where
    abbrev pub handled : Handler → Message F → Option (EventEnvelope F) → Exec (Unit {0})
    handled handler m none = raise value_error
    handled handler m (some e) = if is_expired e now then pure tt else handler e m

    abbrev settled : Message F → Result (Unit {0}) × World → List (Effect F) × World
    settled m (r, w) = (process m r, w)

    unfoldable pub wrapped : Handler → Message F → World → List (Effect F) × World
    wrapped handler m w = settled m (handled handler m (decode m.body) w)

    -- The callback that the queue is given, if the consumer has started.
    unfoldable pub consume : Bool → Handler → Result (Message F → World → List (Effect F) × World)
    unfolding wrapped
    consume has_queue handler =
        if has_queue
        then ok (wrapped handler)
        else err (runtime_error "RabbitMQ consumer не запущен")

    -- A callback does not hand an expired message to its handler, and its body ends without an error:
    -- the message is settled as one that was handled, where `events` rejects it.
    wrapped-expired :
        (handler : Handler) (m : Message F) (e : EventEnvelope F) (w : World)
        → decode m.body ≡ some e
        → is_expired e now ≡ true
        → wrapped handler m w ≡ (process m (ok tt), w)
    unfolding wrapped
    wrapped-expired handler m e w d h = rw (d, h) refl
