-- ===== src/Kafka/Skipped.antt =====
-- What a restart of a Kafka consumer reads again.
use cloud_multi_agent_manage.Prelude.{
  ℕ, ◌+◌, ◌≤◌, ◌≡◌, String, Option, none, some, List, [], ◌∷◌, ◌++◌, length, All, arith, refl,
  Option-cases, inl, inr,
}
use cloud_multi_agent_manage.Message.{EventEnvelope}
use cloud_multi_agent_manage.Rabbit.Consumer.{Outcome, committed}
use cloud_multi_agent_manage.Kafka.{Offsets, events, after, read_next}

module _ {F : Type 0} (decode : String → Option (EventEnvelope F)) (now : ℕ → ℕ)
    (body : EventEnvelope F → Outcome) where
  position-after :
      (e : EventEnvelope F) (o : Offsets) → (after decode now body e o).position ≡ o.position
  position-after e o = ground arith

  stored-after :
      (e : EventEnvelope F) (o : Offsets)
      → o.stored ≤ o.position
      → (after decode now body e o).stored ≤ o.position
  stored-after e o h = ground arith

  stored-committed :
      (e : EventEnvelope F) (o : Offsets)
      → body e ≡ committed
      → (after decode now body e o).stored ≡ o.position
  stored-committed e o h = ground arith

  events-some :
      (m : String) (ms : List String) (e : EventEnvelope F) (o : Offsets)
      → decode m ≡ some e
      → events decode now body (m ∷ ms) o
        ≡ events decode now body ms (after decode now body e (read_next o))
  unfolding events
  events-some m ms e o h = rw (events, h) refl

  -- A restart never starts behind what has been read: if the stored offset is not beyond the position,
  -- it is not after any messages, decodable or not.
  pub events-stored :
      (ms : List String) (o : Offsets)
      → o.stored ≤ o.position
      → let o' = (events decode now body ms o).1 in o'.stored ≤ o'.position
  unfolding events
  events-stored [] o h = h
  events-stored (m ∷ ms) o h = elim (Option-cases (decode m)) [
    | inl d ↦ rw (events, d) (omega arith)
    | inr (e, d) ↦
        let o' = after decode now body e (read_next o) in
        rw (events-some m ms e o d) (
          events-stored ms o' (
            omega
              (arith, position-after e (read_next o), stored-after e (read_next o) (omega arith))))
  ]

  -- A message whose handler failed is not read again once a later one has been handled: after messages
  -- that all decode, whatever their handlers did, and a last one that is handled, the stored offset is
  -- behind all of them.
  pub events-skipped :
      (ms : List String) (m : String) (e : EventEnvelope F) (o : Offsets)
      → All (λ t. (d : EventEnvelope F) × (decode t ≡ some d)) ms
      → decode m ≡ some e
      → body e ≡ committed
      → let (r, o') = events decode now body (ms ++ (m ∷ [])) o in
        (r ≡ none) × (o'.stored ≡ o.position + length ms + 1)
  unfolding events
  events-skipped [] m e o a d b =
      let s = stored-committed e (read_next o) b in
      rw (events-some m [] e o d) (refl, omega (arith, s))
  events-skipped (t ∷ ms) m e o ((x, q), a) d b =
      let o' = after decode now body x (read_next o) in
      let (r, s) = events-skipped ms m e o' a d b in
      rw (events-some t (ms ++ (m ∷ [])) x o q)
        (r, omega (arith, s, position-after x (read_next o)))
