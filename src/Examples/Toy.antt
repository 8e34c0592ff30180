-- ===== src/Examples/Toy.antt =====
-- A concrete platform, at which the theorems are applied: floats are counts of ten-thousandths, and
-- the store is a list of keys with their entries, the newest first.
use Prim.Native.String.{String, ◌++◌}
use Prim.Native.Char.{code}
use mathlib.Core.Logic.{ite}
use cloud_multi_agent_manage.Prelude.{
  ℕ, zero, suc, ◌+◌, ◌-◌, ◌*◌, ◌/◌, ◌%◌, Bool, true, false, Option, none, some, List, [], ◌∷◌, ltb,
  leb, ◌&&◌, if◌then◌else◌,
}
use cloud_multi_agent_manage.Prelude.Int.{ℤ, pos, pos_part}
use cloud_multi_agent_manage.Examples.ToyKey.{Key_discrete}
use cloud_multi_agent_manage.Value.{str, dict, empty, field}
use cloud_multi_agent_manage.Key.{Key, Pattern, matches}
use cloud_multi_agent_manage.Platform.{
  Platform, Error, Result, ok, err, value_error, runtime_error, wrong_type,
}
use cloud_multi_agent_manage.Platform.Laws.{
  Entry, absent, string, get_entry, hgetall_entry, hset_entry, zadd_entry, zrem_entry, zcard_entry,
  type_entry, sadd_entry, srem_entry, smembers_entry, scard_entry,
}

abbrev ten_to : ℕ → ℕ
ten_to zero = 1
ten_to (suc d) = 10 * ten_to d

abbrev pub literal : ℕ → ℕ → ℕ
literal m d = m * 10000 / ten_to d

-- The number that a text of digits writes.
abbrev digits_value : ℕ → String → Option ℕ
digits_value n String.[] = some n
digits_value n (String.◌∷◌ c s) =
    let rest = digits_value (n * 10 + (code c - b'0')) s in
    if leb b'0' (code c) && leb (code c) b'9' then rest else none

abbrev digit : ℕ → String
digit zero = "0"
digit (suc zero) = "1"
digit (suc (suc zero)) = "2"
digit (suc (suc (suc zero))) = "3"
digit (suc (suc (suc (suc zero)))) = "4"
digit (suc (suc (suc (suc (suc zero))))) = "5"
digit (suc (suc (suc (suc (suc (suc zero)))))) = "6"
digit (suc (suc (suc (suc (suc (suc (suc zero))))))) = "7"
digit (suc (suc (suc (suc (suc (suc (suc (suc zero)))))))) = "8"
digit _ = "9"

abbrev show_digits : ℕ → ℕ → String
show_digits zero n = ""
show_digits (suc f) n =
    let rest = show_digits f (n / 10) in if ltb n 10 then digit n else rest ++ digit (n % 10)

abbrev scaled : Option ℕ → Option ℕ
scaled none = none
scaled (some n) = some (n * 10000)

abbrev whole : Option ℕ → Option ℤ
whole none = none
whole (some n) = some (pos n)

abbrev error_text : Error → String
error_text (runtime_error t) = t
error_text _ = "error"

abbrev pub ToyStore : Type 0
ToyStore = List (Key × Entry ℕ)

abbrev pub view : Key → ToyStore → Entry ℕ
view k [] = absent
view k ((j, e) ∷ s) = ite (Key_discrete k j) e (view k s)

abbrev pub drop_key : Key → List Key → List Key
drop_key k [] = []
drop_key k (j ∷ ks) = let rest = drop_key k ks in ite (Key_discrete j k) rest (j ∷ rest)

abbrev pub is_present : Entry ℕ → Bool
is_present absent = false
is_present _ = true

-- The keys that hold something, each once.
abbrev pub present : ToyStore → List Key
present [] = []
present ((k, e) ∷ s) = let rest = drop_key k (present s) in if is_present e then k ∷ rest else rest

abbrev pub selected : Pattern → List Key → List Key
selected q [] = []
selected q (k ∷ ks) = let rest = selected q ks in if matches q k then k ∷ rest else rest

abbrev pub put : Key → ToyStore → Result (Entry ℕ) → Result ToyStore
put k s (ok e) = ok ((k, e) ∷ s)
put k s (err x) = err x

abbrev incremented : Key → ToyStore → Entry ℕ → Result (ℤ × ToyStore)
incremented k s absent = ok (pos 1, (k, string "1") ∷ s)
incremented k s (string t) = elim (digits_value 0 t) [
  | none ↦ err value_error
  | some n ↦ ok (pos (n + 1), (k, string (show_digits 20 (n + 1))) ∷ s)
]
incremented k s _ = err wrong_type

abbrev names : List (String × ℕ) → List String
names [] = []
names ((m, x) ∷ z) = m ∷ names z

abbrev ranged : Entry ℕ → Result (List String)
ranged absent = ok []
ranged (Entry.zset z) = ok (names z)
ranged _ = err wrong_type

-- A positive time to live is not over yet.
abbrev pub expire : ℤ → Key → ToyStore → ToyStore
expire (pos (suc n)) k s = s
expire _ k s = (k, absent) ∷ s

abbrev total : List ℕ → ℕ
total [] = 0
total (x ∷ l) = x + total l

abbrev pub toy : Platform
toy = record {
  F = ℕ;
  lit = literal;
  add = λ a b. a + b;
  subtract = λ a b. a - b;
  times = λ a b. a * b / 10000;
  divide = λ a b. a * 10000 / b;
  lt = λ a b. ltb a b;
  le = λ a b. leb a b;
  sum = total;
  round4 = λ a. a;
  of_int = λ z. pos_part z * 10000;
  trunc = λ a. some (pos (a / 10000));
  round_int = λ a. some (pos ((a + 5000) / 10000));
  parse_float = λ t. scaled (digits_value 0 t);
  parse_int = λ t. whole (digits_value 0 t);
  show_float = λ a. show_digits 20 (a / 10000);
  show_int = λ z. show_digits 20 (pos_part z);
  show_value = λ v. "value";
  show_error = error_text;
  lower = λ t. t;
  strip = λ t. t;
  expandvars = λ t. t;
  dumps = λ d. "{}";
  loads = λ t. some (dict (field "task_id" (str "t1") empty));
  time_at = λ n. n * 10000;
  datetime_at = λ n. n * 1000000;
  isoformat = λ n. show_digits 20 n;
  uuid4 = λ n. show_digits 20 n;
  parse_datetime = digits_value 0;
  total_seconds = λ z. pos_part z / 100;
  Store = ToyStore;
  redis_get = λ k s. get_entry (view k s);
  redis_set = λ k t s. (k, string t) ∷ s;
  redis_setex = λ k t n s. (k, string t) ∷ s;
  redis_delete = λ k s. (k, absent) ∷ s;
  redis_incr = λ k s. incremented k s (view k s);
  redis_hgetall = λ k s. hgetall_entry (view k s);
  redis_hset = λ k m s. put k s (hset_entry m (view k s));
  redis_zadd = λ k m x s. put k s (zadd_entry m x (view k s));
  redis_zrem = λ k m s. put k s (zrem_entry m (view k s));
  redis_zcard = λ k s. zcard_entry (view k s);
  redis_zrange = λ k s. ranged (view k s);
  redis_sadd = λ k m s. put k s (sadd_entry m (view k s));
  redis_srem = λ k m s. put k s (srem_entry m (view k s));
  redis_smembers = λ k s. smembers_entry (view k s);
  redis_scard = λ k s. scard_entry (view k s);
  redis_keys = λ q s. selected q (present s);
  redis_type = λ k s. type_entry (view k s);
  redis_expire = λ k z s. expire z k s;
}
