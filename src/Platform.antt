-- ===== src/Platform.antt =====
-- What the services use and do not implement: Python's floats and number formats, JSON, the clock,
-- `uuid4`, and a Redis server. `Platform` is the argument of every definition that uses them.
pub mod Laws
pub mod Floats
pub mod Results
use cloud_multi_agent_manage.Prelude.{ℕ, String, Bool, Option, List}
use cloud_multi_agent_manage.Prelude.Int.{ℤ}
use cloud_multi_agent_manage.Value.{Value, Payload, Hash}
use cloud_multi_agent_manage.Key.{Key, Pattern}

-- `wrong_type` is the refusal of Redis, `data_error` that of its client, which writes only texts and
-- numbers; `database_error` is a refusal of PostgreSQL; `out_of_fuel` is no error of the source.
pub data Error : Type 0 where
  key_error runtime_error : String → Error
  type_error value_error zero_division attribute_error index_error wrong_type data_error
        database_error out_of_fuel :
      Error

-- What a call gives: a value, or the exception that it raises.
pub data Result {ℓ} (A : Type ℓ) : Type ℓ where
  err : Error → Result A
  ok : A → Result A

pub record Platform : Type 1 where
  pub F : Type 0
  -- `lit m d` is the literal m / 10^d.
  pub lit : ℕ → ℕ → F
  pub add : F → F → F
  pub subtract : F → F → F
  pub times : F → F → F
  pub divide : F → F → F
  pub lt : F → F → Bool
  pub le : F → F → Bool
  -- `sum` of a list of floats
  pub sum : List F → F
  pub round4 : F → F
  pub of_int : ℤ → F
  -- `int(x)`; `none` for nan and infinity.
  pub trunc : F → Option ℤ
  -- `int(round(x))`, likewise.
  pub round_int : F → Option ℤ
  -- `float(s)` and `int(s)` of a text, `str` of a number and of an exception.
  pub parse_float : String → Option F
  pub parse_int : String → Option ℤ
  pub show_float : F → String
  pub show_int : ℤ → String
  -- `str` of a null, a truth value, a list or a dict, and of an error; `lower` and `strip` of a text.
  pub show_value : Value F → String
  pub show_error : Error → String
  pub lower : String → String
  pub strip : String → String
  -- `os.path.expandvars`
  pub expandvars : String → String
  pub dumps : Payload F → String
  pub loads : String → Option (Value F)
  -- The n-th reading of the clock, as `time.time()`, in microseconds and in ISO format; `uuid4`.
  pub time_at : ℕ → F
  pub datetime_at : ℕ → ℕ
  pub isoformat : ℕ → String
  pub uuid4 : ℕ → String
  -- `datetime.fromisoformat(text.replace("Z", "+00:00"))`, and total_seconds of a difference.
  pub parse_datetime : String → Option ℕ
  pub total_seconds : ℤ → F
  -- The Redis client: each command on a store of keys. `err` is what the server refuses.
  pub Store : Type 0
  pub redis_get : Key → Store → Result (Option String)
  pub redis_set : Key → String → Store → Store
  -- `set` with the argument `ex`, the time to live in seconds.
  pub redis_setex : Key → String → ℤ → Store → Store
  pub redis_delete : Key → Store → Store
  pub redis_incr : Key → Store → Result (ℤ × Store)
  pub redis_hgetall : Key → Store → Result Hash
  pub redis_hset : Key → Hash → Store → Result Store
  pub redis_zadd : Key → String → F → Store → Result Store
  pub redis_zrem : Key → String → Store → Result Store
  pub redis_zcard : Key → Store → Result ℕ
  pub redis_zrange : Key → Store → Result (List String)
  pub redis_sadd : Key → String → Store → Result Store
  pub redis_srem : Key → String → Store → Result Store
  pub redis_smembers : Key → Store → Result (List String)
  pub redis_scard : Key → Store → Result ℕ
  pub redis_keys : Pattern → Store → List Key
  pub redis_type : Key → Store → String
  pub redis_expire : Key → ℤ → Store → Store

module _ {ℓ κ} {A : Type ℓ} {B : Type κ} where
  -- The rest of a block runs on the value of its first result, and an error ends the block.
  infixl 5 ◌>>=◌
  abbrev pub ◌>>=◌ : Result A → (A → Result B) → Result B
  ◌>>=◌ (err x) rest = err x
  ◌>>=◌ (ok a) rest = rest a
