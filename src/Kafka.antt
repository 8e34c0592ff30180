-- ===== src/Kafka.antt =====
-- common/cloudrm/kafka.py: `EventConsumer.events` and `commit`, and the loop of a worker around them.
-- `commit` commits the offset behind the last message that was read, as aiokafka documents it.
pub mod Skipped
pub mod Producer
use cloud_multi_agent_manage.Prelude.{
  ℕ, suc, String, Option, none, some, List, [], ◌∷◌, if◌then◌else◌,
}
use cloud_multi_agent_manage.Platform.{Error, value_error}
use cloud_multi_agent_manage.Message.{EventEnvelope, is_expired}
use cloud_multi_agent_manage.Rabbit.Consumer.{Outcome, committed, failed}

-- The offset of the next message to read, and the one from which a restart reads.
pub record Offsets : Type 0 where
  pub position : ℕ
  pub stored : ℕ

abbrev pub commit : Offsets → Offsets
commit o = record o { stored = o.position }

abbrev pub read_next : Offsets → Offsets
read_next o = record o { position = suc o.position }

-- A worker commits only what it has handled.
abbrev pub settled : Outcome → Offsets → Offsets
settled committed o = commit o
settled failed o = o

-- `decode` is `model_validate` of the message; `now n` is the clock after n messages.
module _ {F : Type 0} (decode : String → Option (EventEnvelope F)) (now : ℕ → ℕ)
    (body : EventEnvelope F → Outcome) where
  abbrev pub after : EventEnvelope F → Offsets → Offsets
  after e o = if is_expired e (now o.position) then commit o else settled (body e) o

  -- The `async for`: the error that ends it, and the offsets.
  unfoldable pub events : List String → Offsets → Option Error × Offsets
  events [] o = (none, o)
  events (m ∷ ms) o = elim (decode m) [
    | none ↦ (some value_error, read_next o)
    | some e ↦ events ms (after e (read_next o))
  ]
