-- ===== src/Worker.antt =====
-- The `worker` of the agents (services/*/main.py), around RabbitConsumer.events of
-- common/cloudrm/rabbit.py: what the handlers of a sequence of messages do to the world, and what the
-- consumer does to the broker.
pub mod Settled
use cloud_multi_agent_manage.Prelude.{
  ℕ, String, Bool, Option, none, some, List, [], ◌∷◌, ◌++◌, if◌then◌else◌,
}
use cloud_multi_agent_manage.Platform.{Platform, Error, Result, ok, err}
use cloud_multi_agent_manage.Message.{EventEnvelope, is_expired}
use cloud_multi_agent_manage.Exec.{World, Exec}
use cloud_multi_agent_manage.Rabbit.Message.{Message}
use cloud_multi_agent_manage.Rabbit.Consumer.{
  Effect, Outcome, committed, failed, Pass, next, escaped, deliver,
}

module _ ⦃p : Platform⦄ where
  open p use {F}

  -- The body of the `async for` for one envelope. An error is one that its `except` clause raises.
  abbrev pub Turn : Type 0
  Turn = EventEnvelope F → World → Result Outcome × World

  -- The commit and the reset of `last_error`, or the `except` clause.
  abbrev pub attended : Result (Unit {0}) × World → Result Outcome × World
  attended (ok u, w) = (ok committed, record w { last_error = none })
  attended (err x, w) = (ok failed, record w { last_error = some (p.show_error x) })

  -- The body of the loop, as all agents but two have it.
  abbrev pub attend : (EventEnvelope F → Exec (Unit {0})) → Turn
  attend handle e w = attended (handle e w)

  -- How the messages that a worker was given ended: what it did to the broker, what it has not read,
  -- the world, and the error that ended the loop, if one did.
  pub record Served : Type 0 where
    pub effects : List (Effect F)
    pub unread : List (Message F)
    pub world : World
    pub error : Option Error

  module _ (decode : String → Option (EventEnvelope F)) (retry : Bool) (now : ℕ) where
    abbrev pub turned : Message F → Result Outcome × World → Pass × World
    turned m (ok o, w) = (deliver decode retry now (λ _. o) m, w)
    turned m (err x, w) = (escaped [] x, w)

    -- An envelope that has expired does not reach the worker.
    abbrev pub received : Turn → Message F → Option (EventEnvelope F) → World → Pass × World
    received turn m none w = (deliver decode retry now (λ _. failed) m, w)
    received turn m (some e) w =
        if is_expired e now
        then (deliver decode retry now (λ _. failed) m, w)
        else turned m (turn e w)

    abbrev pub passed : Pass × World → List (Message F) → (World → Served) → Served
    passed (next es, w) ms rest = let r = rest w in record r { effects = es ++ r.effects }
    passed (escaped es x, w) ms rest = record {
      effects = es;
      unread = ms;
      world = w;
      error = some x;
    }

    -- The `async for` of a worker over the messages that arrive.
    unfoldable pub serve : Turn → List (Message F) → World → Served
    unfolding deliver
    serve turn [] w = record { effects = []; unread = []; world = w; error = none }
    serve turn (m ∷ ms) w = passed (received turn m (decode m.body) w) ms (serve turn ms)
