-- ===== src/Runtime/Lifecycle.antt =====
-- The processes of the services, in every state that they reach.
use cloud_multi_agent_manage.Prelude.{
  ◌≡◌, ◌≢◌, ◌⊎◌, refl, sym, ap, ◌∙◌, inl, inr, String, Bool, true, false, Option, some, List, [],
  ◌∷◌, ◌++◌, In, In-right, arith, str_eq, Bool-cases,
}
use cloud_multi_agent_manage.Value.{Value}
use cloud_multi_agent_manage.Platform.{Platform, Result, ok, err}
use cloud_multi_agent_manage.Platform.Results.{is_ok}
use cloud_multi_agent_manage.Runtime.Service.{ServiceRuntime, Consumer, Clients}
use cloud_multi_agent_manage.Runtime.Start.{start}
use cloud_multi_agent_manage.Runtime.Readiness.{start-IsUnready}
use cloud_multi_agent_manage.Runtime.Lifespan.{
  Handle, consumer_handle, bus_handle, publisher_handle, redis_handle, db_handle, given,
  has_consumer, waiting, serving, ended, Process, launched, without, held, close_all, stop, leave,
  entered, enter, Step, begins, task_ends, leaves, Reachable, at_first, later,
}

close_all-ok :
    (close : Handle → Result (Unit {0})) (hs : List Handle)
    → ((h : Handle) → close h ≡ ok tt)
    → (close_all close hs).1 ≡ hs
unfolding close_all
close_all-ok close [] h = refl
close_all-ok close (x ∷ hs) h = ground (arith, h x, close_all-ok close hs h)

-- A task that runs after another has ended ran before.
In-without : (name t : String) (ts : List String) → In t (without name ts) → In t ts
In-without name t [] i = i
In-without name t (u ∷ us) i = elim (Bool-cases (str_eq u name)) [
  | inl e ↦ inr (In-without name t us (rw e at i))
  | inr e ↦
      let j : (t ≡ u) ⊎ In t (without name us) = rw e at i in
      elim j [ inl a ↦ inl a | inr b ↦ inr (In-without name t us b) ]
]

In-given : (b : Bool) (h : Handle) (hs : List Handle) → b ≡ true → In h (given b h ++ hs)
In-given b h hs e = rw e (inl refl)

-- Each client that is there is among those that are held.
module _ (r : ServiceRuntime) where
  held-db : r.db ≡ true → In db_handle (held r)
  held-db e = In-right db_handle (given (has_consumer r.consumer) consumer_handle) _ (
      In-right db_handle (given r.bus bus_handle) _ (
        In-right db_handle (given r.rabbit publisher_handle) _
          (In-right db_handle (given r.redis redis_handle) _ (rw e (inl refl)))))

  held-redis : r.redis ≡ true → In redis_handle (held r)
  held-redis e = In-right redis_handle (given (has_consumer r.consumer) consumer_handle) _ (
      In-right redis_handle (given r.bus bus_handle) _ (
        In-right redis_handle (given r.rabbit publisher_handle) _
          (In-given r.redis redis_handle _ e)))

  held-publisher : r.rabbit ≡ true → In publisher_handle (held r)
  held-publisher e = In-right publisher_handle (given (has_consumer r.consumer) consumer_handle) _ (
      In-right publisher_handle (given r.bus bus_handle) _ (In-given r.rabbit publisher_handle _ e))

  held-bus : r.bus ≡ true → In bus_handle (held r)
  held-bus e =
      In-right bus_handle (given (has_consumer r.consumer) consumer_handle) _
        (In-given r.bus bus_handle _ e)

  held-consumer : (c : Consumer) → r.consumer ≡ some c → In consumer_handle (held r)
  held-consumer c e = In-given (has_consumer r.consumer) consumer_handle _ (ap has_consumer e)

apart : waiting ≢ serving
apart h = cc

module _ ⦃p : Platform⦄ where
  open p use {F}

  module _ (close : Handle → Result (Unit {0})) where
    -- What every process keeps: it says that it is ready only while it serves; after its end each task
    -- that it still runs was asked to end, and what it held has been closed up to the first error.
    pub record IsSound (s : Process) : Type 0 where
      ready_serving : s.runtime.ready ≡ true → s.phase ≡ serving
      ended_cancelled : s.phase ≡ ended → (t : String) → In t s.tasks → In t s.cancelled
      ended_closed : s.phase ≡ ended → s.closed ≡ (close_all close (held s.runtime)).1

    entered-IsSound :
        (names : List String) (q : Result (Unit {0}) × ServiceRuntime) (s : Process)
        → s.phase ≡ waiting
        → IsSound s
        → (is_ok q.0 ≡ false → q.1.ready ≡ s.runtime.ready)
        → IsSound (entered names q s)
    entered-IsSound names (ok u, self) s w h k = record {
      ready_serving = λ _. refl;
      ended_cancelled = λ e. cc;
      ended_closed = λ e. cc;
    }
    entered-IsSound names (err x, self) s w h k = record {
      ready_serving = λ e. absurd (apart (sym w ∙ h.ready_serving (sym (k refl) ∙ e)));
      ended_cancelled = λ e. cc;
      ended_closed = λ e. cc;
    }

    module _ (clients : Clients F) (config : Value F) (env : Option String)
        (names : List String) where
      Step-IsSound :
          {s t : Process} → Step clients config env names close s t → IsSound s → IsSound t
      unfolding enter leave stop
      Step-IsSound (begins {s} {t} w e) h = rw e (
          entered-IsSound names (start clients config env s.runtime) s w h
            (start-IsUnready clients config env s.runtime))
      Step-IsSound (task_ends {s} {t} name e) h = rw e (record {
        ready_serving = h.ready_serving;
        ended_cancelled = λ x t i. h.ended_cancelled x t (In-without name t s.tasks i);
        ended_closed = h.ended_closed;
      })
      Step-IsSound (leaves {s} {t} w e) h = rw e (record {
        ready_serving = λ x. cc;
        ended_cancelled = λ _ t i. i;
        ended_closed = λ _. refl;
      })

      Reachable-IsSound :
          {first s : Process}
          → IsSound first
          → Reachable clients config env names close first s
          → IsSound s
      Reachable-IsSound h at_first = h
      Reachable-IsSound h (later r st) = Step-IsSound st (Reachable-IsSound h r)

    module _ (name : String) (topics : List String) where
      -- A process as it was launched.
      launched-IsSound : IsSound (launched name topics)
      launched-IsSound = record {
        ready_serving = λ e. cc;
        ended_cancelled = λ e. cc;
        ended_closed = λ e. cc;
      }

  -- Of all the states that the process of a service can reach, whatever its dependencies answer, only
  -- those say that it is ready in which its start went through and its shutdown has not begun: not
  -- before the start, not after a start that raised, and not after the shutdown.
  pub ready-serving :
      (clients : Clients F) (config : Value F) (env : Option String) (names : List String)
      (close : Handle → Result (Unit {0})) (name : String) (topics : List String) (s : Process)
      → Reachable clients config env names close (launched name topics) s
      → s.runtime.ready ≡ true
      → s.phase ≡ serving
  ready-serving clients config env names close name topics s r e =
      let sound =
        Reachable-IsSound close clients config env names (launched-IsSound close name topics) r in
      sound.ready_serving e

  -- Where every close succeeds, a service that was shut down has asked every task that still runs to end,
  -- and has closed each client that it holds: its consumer, its producer of Kafka, its publisher of
  -- RabbitMQ, its Redis client and its database engine.
  pub ended-closed :
      (clients : Clients F) (config : Value F) (env : Option String) (names : List String)
      (close : Handle → Result (Unit {0})) (name : String) (topics : List String) (s : Process)
      → ((h : Handle) → close h ≡ ok tt)
      → Reachable clients config env names close (launched name topics) s
      → s.phase ≡ ended
      → ((t : String) → In t s.tasks → In t s.cancelled)
        × ((c : Consumer) → s.runtime.consumer ≡ some c → In consumer_handle s.closed)
        × (s.runtime.bus ≡ true → In bus_handle s.closed)
        × (s.runtime.rabbit ≡ true → In publisher_handle s.closed)
        × (s.runtime.redis ≡ true → In redis_handle s.closed)
        × (s.runtime.db ≡ true → In db_handle s.closed)
  ended-closed clients config env names close name topics s c r e =
      let sound =
        Reachable-IsSound close clients config env names (launched-IsSound close name topics) r in
      let all = sound.ended_closed e ∙ close_all-ok close (held s.runtime) c in
      let r = s.runtime in
      rw all (
        sound.ended_cancelled e,
        λ x y. held-consumer r x y,
        held-bus r,
        held-publisher r,
        held-redis r,
        held-db r,
      )
