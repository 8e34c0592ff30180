-- ===== src/Exec.antt =====
-- A handler of a service: it reads and writes the world and may raise. What was written before a
-- raise stays written, so the world comes back beside the error too.
pub mod Laws
use cloud_multi_agent_manage.Prelude.{
  ℕ, suc, String, Bool, true, false, Option, none, some, List, ◌∷◌,
}
use cloud_multi_agent_manage.Value.{Value}
use cloud_multi_agent_manage.Platform.{Platform, Error, Result, ok, err}
use cloud_multi_agent_manage.Message.{EventEnvelope}
use cloud_multi_agent_manage.Statement.{Statement}

-- The values of EVENT_BACKEND; `other` is any text that is none of the three.
pub data Backend : Type 0 where
  rabbitmq kafka dual other : Backend

-- A message that left through a broker: the topic or the routing key, and the envelope.
pub data Sent (F : Type 0) : Type 0 where
  to_kafka : Value F → EventEnvelope F → Sent F
  to_rabbit : String → EventEnvelope F → Sent F

module _ ⦃p : Platform⦄ where
  open p use {F, Store}

  -- The fields of `ServiceRuntime` that a handler reads, the Redis store, and what has been sent to
  -- the database and the brokers, the newest first. `readings` counts uses of the clock and of uuid4.
  pub record World : Type 0 where
    pub config : Value F
    pub event_backend : Backend
    pub db_ready : Bool
    pub bus_ready : Bool
    pub rabbit_ready : Bool
    pub redis : Store
    pub statements : List (Statement F)
    pub sent : List (Sent F)
    pub readings : ℕ
    pub last_error : Option String

  abbrev pub Exec : Type 0 → Type 0
  Exec A = World → Result A × World

module _ ⦃p : Platform⦄ {A : Type 0} where
  open p use {F, Store}

  abbrev pub pure : A → Exec A
  pure a w = (ok a, w)

  abbrev pub raise : Error → Exec A
  raise e w = (err e, w)

  abbrev pub lift : Result A → Exec A
  lift r w = (r, w)

  abbrev pub or_raise : Option A → Error → Exec A
  or_raise none e w = (err e, w)
  or_raise (some a) e w = (ok a, w)

  abbrev pub gets : (World → A) → Exec A
  gets f w = (ok (f w), w)

  abbrev pub query : (Store → Result A) → Exec A
  query f w = (f w.redis, w)

module _ ⦃p : Platform⦄ {A B : Type 0} where
  abbrev pub continue : Result A → (A → Exec B) → World → Result B × World
  continue (ok a) f w = f a w
  continue (err e) f w = (err e, w)

  infixl 5 ◌>>=◌ ◌>>◌
  abbrev pub ◌>>=◌ : Exec A → (A → Exec B) → Exec B
  ◌>>=◌ m f w = let (r, w') = m w in continue r f w'

  abbrev pub ◌>>◌ : Exec A → Exec B → Exec B
  m >> k = m >>= λ _. k

  -- `try: m except Exception as exc: handler(exc)`
  abbrev pub caught : Result A → (A → Exec B) → (Error → Exec B) → World → Result B × World
  caught (ok a) f h w = f a w
  caught (err e) f h w = h e w

module _ ⦃p : Platform⦄ where
  open p use {F, Store}

  abbrev pub modify : (World → World) → Exec (Unit {0})
  modify f w = (ok tt, f w)

  abbrev pub when : Bool → Exec (Unit {0}) → Exec (Unit {0})
  when true m w = m w
  when false m w = (ok tt, w)

  abbrev pub stored : Result Store → World → Result (Unit {0}) × World
  stored (ok s) w = (ok tt, record w { redis = s })
  stored (err e) w = (err e, w)

  abbrev pub command : (Store → Result Store) → Exec (Unit {0})
  command f w = stored (f w.redis) w

  abbrev pub overwrite : (Store → Store) → Exec (Unit {0})
  overwrite f w = (ok tt, record w { redis = f w.redis })

  -- One statement, in a transaction of its own.
  abbrev pub execute : Statement F → Exec (Unit {0})
  execute q w = (ok tt, record w { statements = q ∷ w.statements })

  abbrev pub emit : Sent F → Exec (Unit {0})
  emit m w = (ok tt, record w { sent = m ∷ w.sent })

  -- A reading of the clock, or an identifier: no two are the same reading.
  abbrev pub reading : Exec ℕ
  reading w = (ok w.readings, record w { readings = suc w.readings })

  abbrev pub now : Exec F
  now = reading >>= λ n. pure (p.time_at n)
