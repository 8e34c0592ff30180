-- ===== src/Worker/Settled.antt =====
-- Every message that a worker is given is settled, whatever its handler does.
use cloud_multi_agent_manage.Prelude.{
  ℕ, ◌≡◌, refl, ap, ◌∙◌, inl, inr, String, Bool, true, false, Option, none, some, List, [], ◌∷◌,
  ◌++◌, All, arith, Bool-cases,
}
use cloud_multi_agent_manage.Prelude.Int.{ℤ, pos}
use cloud_multi_agent_manage.Value.{int, get_or}
use cloud_multi_agent_manage.Platform.{Platform, Result, ok, err}
use cloud_multi_agent_manage.Message.{EventEnvelope, is_expired}
use cloud_multi_agent_manage.Python.{int_of}
use cloud_multi_agent_manage.Exec.{World, Exec}
use cloud_multi_agent_manage.Rabbit.Message.{Message}
use cloud_multi_agent_manage.Rabbit.Consumer.{
  Effect, ack, reject, republish, count_dead, Outcome, committed, failed, Pass, next, escaped,
  deliver, headers_of,
}
use cloud_multi_agent_manage.Worker.{
  Turn, Served, attend, attended, received, turned, passed, serve,
}

module _ ⦃p : Platform⦄ where
  open p use {F}

  -- The counts in the headers of the message are integers.
  abbrev pub HasCounts : Message F → Type 0
  HasCounts m =
      (c : ℤ) × (d : ℤ) × (int_of (get_or "x-retry-count" (int (pos 0)) (headers_of m.headers))
        ≡ ok c)
      × (int_of (get_or "x-max-retries" (int (pos 3)) (headers_of m.headers)) ≡ ok d)

  -- The messages that are acknowledged or rejected, in order.
  abbrev pub settled : List (Effect F) → List (Message F)
  settled [] = []
  settled (ack m ∷ es) = m ∷ settled es
  settled (reject m ∷ es) = m ∷ settled es
  settled (republish m ∷ es) = settled es
  settled (count_dead r ∷ es) = settled es

  settled-append : (es fs : List (Effect F)) → settled (es ++ fs) ≡ settled es ++ settled fs
  settled-append [] fs = refl
  settled-append (ack m ∷ es) fs = ap (λ ms. m ∷ ms) (settled-append es fs)
  settled-append (reject m ∷ es) fs = ap (λ ms. m ∷ ms) (settled-append es fs)
  settled-append (republish m ∷ es) fs = settled-append es fs
  settled-append (count_dead r ∷ es) fs = settled-append es fs

  module _ (decode : String → Option (EventEnvelope F)) (retry : Bool) (now : ℕ) where
    -- The worker can read the message.
    abbrev pub IsReadable : Message F → Type 0
    IsReadable m = HasCounts m × (e : EventEnvelope F) × (decode m.body ≡ some e)

    abbrev is_next : Pass → Bool
    is_next (next es) = true
    is_next (escaped es x) = false

    abbrev settled_by : Pass → List (Message F)
    settled_by (next es) = settled es
    settled_by (escaped es x) = settled es

    -- A pass that goes on, and settles that message once and no other.
    abbrev SettlesOne : Message F → Pass → Type 0
    SettlesOne m q = (is_next q ≡ true) × (settled_by q ≡ m ∷ [])

    deliver-SettlesOne :
        (o : Outcome) (m : Message F)
        → IsReadable m
        → SettlesOne m (deliver decode retry now (λ _. o) m)
    unfolding deliver
    deliver-SettlesOne committed m ((c, d, hc, hd), e, h) =
        (ground (arith, hc, hd, h), ground (arith, hc, hd, h))
    deliver-SettlesOne failed m ((c, d, hc, hd), e, h) =
        (ground (arith, hc, hd, h), ground (arith, hc, hd, h))

    attended-SettlesOne :
        (r : Result (Unit {0}) × World) (m : Message F)
        → IsReadable m
        → SettlesOne m (turned decode retry now m (attended r)).0
    attended-SettlesOne (ok u, w) m h = deliver-SettlesOne committed m h
    attended-SettlesOne (err x, w) m h = deliver-SettlesOne failed m h

    module _ (handle : EventEnvelope F → Exec (Unit {0})) where
      received-SettlesOne :
          (m : Message F) (e : EventEnvelope F) (w : World)
          → IsReadable m
          → SettlesOne m (received decode retry now (attend handle) m (some e) w).0
      received-SettlesOne m e w h = elim (Bool-cases (is_expired e now)) [
        | inl x ↦ rw x (deliver-SettlesOne failed m h)
        | inr x ↦ rw x (attended-SettlesOne (handle e w) m h)
      ]

      -- The loop has read the messages, and what it settled are these, each once and in order.
      abbrev pub Settles : List (Message F) → Served → Type 0
      Settles ms r = (r.error ≡ none) × (r.unread ≡ []) × (settled r.effects ≡ ms)

      passed-Settles :
          (m : Message F) (q : Pass × World) (ms : List (Message F)) (rest : World → Served)
          → SettlesOne m q.0
          → Settles ms (rest q.1)
          → Settles (m ∷ ms) (passed decode retry now q ms rest)
      passed-Settles m (next es, w) ms rest (a, b) (c, d, e) =
          (c, d, settled-append es (rest w).effects ∙ rw (b, e))
      passed-Settles m (escaped es x, w) ms rest (a, b) h = cc

      -- Whatever the handler does to the world and whatever it raises, at each message and also where
      -- it raises after having written: a worker reads every message that it is given, no error ends
      -- its loop, and the messages that it acknowledges or rejects are those that it was given, each
      -- once and in their order. Each message must be readable: its body decodes, and the retry counts in its headers are integers.
      pub serve-Settles :
          (ms : List (Message F)) (w : World)
          → All IsReadable ms
          → Settles ms (serve decode retry now (attend handle) ms w)
      unfolding serve
      serve-Settles [] w h = (refl, refl, refl)
      serve-Settles (m ∷ ms) w ((counts, e, d), hs) =
          let q = received decode retry now (attend handle) m (decode m.body) w in
          passed-Settles m q ms (serve decode retry now (attend handle) ms)
            (rw d (received-SettlesOne m e w (counts, e, d))) (serve-Settles ms q.1 hs)

    -- A message whose body does not decode ends the loop of every worker: it and no later message is
    -- handled, and the world stays as it was, the `last_error` that readiness reports included.
    pub serve-undecodable :
        (turn : Turn) (m : Message F) (ms : List (Message F)) (w : World)
        → decode m.body ≡ none
        → let r = serve decode retry now turn (m ∷ ms) w in (r.unread ≡ ms) × (r.world ≡ w)
    unfolding serve deliver
    serve-undecodable turn m ms w h = (ground (arith, h), ground (arith, h))

    -- A message whose handler returns is acknowledged, and the error of an earlier one forgotten.
    pub serve-committed :
        (handle : EventEnvelope F → Exec (Unit {0})) (m : Message F) (e : EventEnvelope F)
        (w : World)
        → decode m.body ≡ some e
        → is_expired e now ≡ false
        → (handle e w).0 ≡ ok tt
        → serve decode retry now (attend handle) (m ∷ []) w ≡ record {
          effects = ack m ∷ [];
          unread = [];
          world = record (handle e w).1 { last_error = none };
          error = none;
        }
    unfolding serve deliver
    serve-committed handle m e w d x h = rw (d, x, h) (rw d (rw x refl))
