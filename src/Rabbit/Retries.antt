-- ===== src/Rabbit/Retries.antt =====
-- How often a message is delivered before it reaches the dead-letter queue.
use cloud_multi_agent_manage.Prelude.{
  ℕ, zero, suc, ◌+◌, String, ◌≡◌, refl, true, Option, none, some, ◌∷◌, arith, ap, ◌∙◌,
}
use mathlib.Core.Option
use cloud_multi_agent_manage.Prelude.Int.{pos, ◌+ℤ◌}
use cloud_multi_agent_manage.Value.{int, get_or, lookup}
use cloud_multi_agent_manage.Value.Laws.{get_or-insert}
use cloud_multi_agent_manage.Message.{EventEnvelope, is_expired}
use cloud_multi_agent_manage.Platform.{Platform}
use cloud_multi_agent_manage.Rabbit.Settings.{RabbitMqSettings}
use cloud_multi_agent_manage.Rabbit.Message.{Message, message_of}
use cloud_multi_agent_manage.Rabbit.Consumer.{
  reject, republish, failed, Pass, next, headers_of, retry_message, deliver,
}

module _ ⦃p : Platform⦄ (decode : String → Option (EventEnvelope p.F)) where
  open p use {F}

  after : (Message F → Option ℕ) → Pass → Option ℕ
  after redeliver (next (republish m ∷ es)) = Option.map suc (redeliver m)
  after redeliver (next (reject m ∷ es)) = some 1
  after redeliver _ = none

  -- The deliveries of a message up to the one that rejects it, when each delivery fails: what goes
  -- to the retry exchange comes back after its time. `none`: none of the first f rejects it.
  pub deliveries : ℕ → ℕ → Message F → Option ℕ
  unfolding after
  deliveries now zero m = none
  deliveries now (suc f) m = after (deliveries now f) (deliver decode true now (λ _. failed) m)

  pub record Failing (m : Message F) (e : EventEnvelope F) (r n : ℕ) : Type 0 where
    pub decodes : decode m.body ≡ some e
    pub lives : e.expires_at ≡ none
    pub retried : get_or "x-retry-count" (int (pos 0)) (headers_of m.headers) ≡ int (pos r)
    pub limited : get_or "x-max-retries" (int (pos 3)) (headers_of m.headers) ≡ int (pos (r + n))

  succ_pos : (r : ℕ) → pos r +ℤ pos 1 ≡ pos (r + 1)
  succ_pos r = ground arith

  retry-Failing :
      (m : Message F) (e : EventEnvelope F) (r n : ℕ)
      → Failing m e r (suc n)
      → Failing (retry_message m (pos r)) e (r + 1) n
  unfolding retry_message
  retry-Failing m e r n h = record {
    decodes = h.decodes;
    lives = h.lives;
    retried = rw get_or-insert (ap int (succ_pos r));
    limited = rw get_or-insert (h.limited ∙ ap (λ (k : ℕ). int (pos k)) (omega arith));
  }

  pub deliveries-eq :
      (now r n : ℕ) (m : Message F) (e : EventEnvelope F)
      → Failing m e r n
      → deliveries now (suc n) m ≡ some (suc n)
  unfolding deliveries deliver is_expired
  deliveries-eq now r zero m e h = ground (arith, h.decodes, h.lives, h.retried, h.limited)
  deliveries-eq now r (suc n) m e h = ground (
    arith,
    h.decodes,
    h.lives,
    h.retried,
    h.limited,
    deliveries-eq now (r + 1) n (retry_message m (pos r)) e (retry-Failing m e r n h),
  )

  -- A message as `RabbitPublisher.publish` makes it, whose envelope has no expiry and whose handler
  -- fails at every delivery, is delivered four times: three retries, and the fourth delivery rejects
  -- it to the dead-letter queue.
  pub published-deliveries :
      (s : RabbitMqSettings) (routing_key body message_id : String) (e : EventEnvelope F) (now : ℕ)
      → decode body ≡ some e
      → e.expires_at ≡ none
      → deliveries now 4 (message_of s routing_key e none body message_id) ≡ some 4
  unfolding message_of get_or lookup
  published-deliveries s routing_key body message_id e now d x =
      deliveries-eq now 0 3 (message_of s routing_key e none body message_id) e
        (record { decodes = d; lives = x; retried = refl; limited = refl })
