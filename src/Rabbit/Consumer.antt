-- ===== src/Rabbit/Consumer.antt =====
-- common/cloudrm/rabbit.py: `RabbitConsumer.events`, `commit` and `retry_or_dead_letter`.
use cloud_multi_agent_manage.Prelude.{
  ℕ, String, Bool, Option, none, some, List, [], ◌∷◌, ◌++◌, str_eq, if◌then◌else◌,
}
use cloud_multi_agent_manage.Prelude.Int.{ℤ, pos, ◌+ℤ◌, leb_ℤ}
use cloud_multi_agent_manage.Value.{Payload, empty, int, get_or, insert}
use cloud_multi_agent_manage.Message.{EventEnvelope, is_expired}
use cloud_multi_agent_manage.Platform.{Platform, Error, Result, ok, err, value_error, ◌>>=◌}
use cloud_multi_agent_manage.Python.{int_of}
use cloud_multi_agent_manage.Rabbit.Message.{Message}

-- What the consumer does to the broker, and the reasons that it counts as dead letters.
pub data Effect (F : Type 0) : Type 0 where
  ack reject : Message F → Effect F
  republish : Message F → Effect F
  count_dead : String → Effect F

-- What the body of the `async for` did with a message: it committed, or raised and caught.
pub data Outcome : Type 0 where
  committed failed : Outcome

module _ ⦃p : Platform⦄ where
  open p use {F}

  abbrev pub headers_of : Option (Payload F) → Payload F
  headers_of none = empty
  headers_of (some h) = h

  abbrev pub or_hash : String → String
  or_hash k = if str_eq k "" then "#" else k

  -- The message that goes to the retry exchange: the same, with the count raised and no expiration.
  unfoldable pub retry_message : Message F → ℤ → Message F
  retry_message m retry_count = record {
    body = m.body;
    content_type = m.content_type;
    message_id = m.message_id;
    correlation_id = m.correlation_id;
    expiration = none;
    headers = some (insert "x-retry-count" (int (retry_count +ℤ pos 1)) (headers_of m.headers));
    routing_key = or_hash m.routing_key;
  }

  unfoldable pub retry_or_dead_letter : Bool → Message F → String → Result (List (Effect F))
  unfolding retry_message
  retry_or_dead_letter has_retry_exchange m reason =
      if has_retry_exchange
      then (do
        retry_count ← int_of (get_or "x-retry-count" (int (pos 0)) (headers_of m.headers))
        max_retries ← int_of (get_or "x-max-retries" (int (pos 3)) (headers_of m.headers))
        if leb_ℤ max_retries retry_count
            then ok (reject m ∷ count_dead "max_retries" ∷ [])
            else ok (republish (retry_message m retry_count) ∷ ack m ∷ []))
      else ok (reject m ∷ count_dead reason ∷ [])

  -- How one pass of the loop ends: it goes on, or an error leaves the generator.
  pub data Pass : Type 0 where
    next : List (Effect F) → Pass
    escaped : List (Effect F) → Error → Pass

  -- The `finally` for a message that is not processed; `pending` is the error that passes through.
  abbrev pub finish : Option Error → Result (List (Effect F)) → Pass
  finish none (ok es) = next es
  finish (some x) (ok es) = escaped es x
  finish _ (err x) = escaped [] x

  module _ (decode : String → Option (EventEnvelope F)) where
    abbrev handled : Bool → Message F → Outcome → Pass
    handled retry m committed = next (ack m ∷ [])
    handled retry m failed = finish none (retry_or_dead_letter retry m "processing_failed")

    abbrev decoded :
        Bool → ℕ → Message F → (EventEnvelope F → Outcome) → Option (EventEnvelope F) → Pass
    decoded retry now m body none =
        finish (some value_error) (retry_or_dead_letter retry m "processing_failed")
    decoded retry now m body (some e) =
        if is_expired e now
        then next (count_dead "expired" ∷ reject m ∷ [])
        else handled retry m (body e)

    -- One message of `events`; `decode` is json.loads and model_validate, `body` the worker.
    unfoldable pub deliver : Bool → ℕ → (EventEnvelope F → Outcome) → Message F → Pass
    unfolding retry_or_dead_letter
    deliver retry now body m = decoded retry now m body (decode m.body)

    -- The `async for`: all effects, and the messages that no pass has seen.
    unfoldable pub events :
        Bool
        → ℕ
        → (EventEnvelope F → Outcome)
        → List (Message F)
        → List (Effect F) × List (Message F)
    unfolding deliver
    events retry now body [] = ([], [])
    events retry now body (m ∷ ms) =
        let rest = events retry now body ms in
        elim (deliver retry now body m) [
          | next es ↦ (es ++ rest.0, rest.1)
          | escaped es x ↦ (es, ms)
        ]
