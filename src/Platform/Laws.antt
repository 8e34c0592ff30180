-- ===== src/Platform/Laws.antt =====
-- Documented behaviour of Redis: every key holds one entry, a command of one type is refused on an
-- entry of another, and it writes no key but its own.
use cloud_multi_agent_manage.Prelude.{
  ℕ, suc, String, ◌≡◌, ◌≢◌, Option, none, some, List, [], ◌∷◌, length, true, In, str_eq,
  if◌then◌else◌,
}
use cloud_multi_agent_manage.Prelude.Int.{ℤ, pos}
use cloud_multi_agent_manage.Value.{Hash, hash_update}
use cloud_multi_agent_manage.Key.{Key, Pattern, matches}
use cloud_multi_agent_manage.Platform.{Platform, Result, ok, err, wrong_type}

pub data Entry (F : Type 0) : Type 0 where
  absent : Entry F
  string : String → Entry F
  hash : Hash → Entry F
  set : List String → Entry F
  zset : List (String × F) → Entry F

abbrev pub member_insert : String → List String → List String
member_insert m [] = m ∷ []
member_insert m (n ∷ l) = let rest = member_insert m l in if str_eq n m then n ∷ l else n ∷ rest

abbrev pub member_erase : String → List String → List String
member_erase m [] = []
member_erase m (n ∷ l) = let rest = member_erase m l in if str_eq n m then rest else n ∷ rest

module _ {F : Type 0} where
  abbrev pub score_insert : String → F → List (String × F) → List (String × F)
  score_insert m x [] = (m, x) ∷ []
  score_insert m x ((n, y) ∷ z) =
      let rest = score_insert m x z in if str_eq n m then (n, x) ∷ z else (n, y) ∷ rest

  abbrev pub score_erase : String → List (String × F) → List (String × F)
  score_erase m [] = []
  score_erase m ((n, y) ∷ z) =
      let rest = score_erase m z in if str_eq n m then rest else (n, y) ∷ rest

  abbrev pub score_of : String → List (String × F) → Option F
  score_of m [] = none
  score_of m ((n, y) ∷ z) = let rest = score_of m z in if str_eq n m then some y else rest

  -- TYPE
  abbrev pub type_entry : Entry F → String
  type_entry absent = "none"
  type_entry (string t) = "string"
  type_entry (hash h) = "hash"
  type_entry (set l) = "set"
  type_entry (zset z) = "zset"

  -- GET
  abbrev pub get_entry : Entry F → Result (Option String)
  get_entry absent = ok none
  get_entry (string t) = ok (some t)
  get_entry _ = err wrong_type

  -- HGETALL, HSET
  abbrev pub hgetall_entry : Entry F → Result Hash
  hgetall_entry absent = ok []
  hgetall_entry (hash h) = ok h
  hgetall_entry _ = err wrong_type

  abbrev pub hset_entry : Hash → Entry F → Result (Entry F)
  hset_entry m absent = ok (hash (hash_update [] m))
  hset_entry m (hash h) = ok (hash (hash_update h m))
  hset_entry m _ = err wrong_type

  -- ZADD, ZREM, ZCARD
  abbrev pub zadd_entry : String → F → Entry F → Result (Entry F)
  zadd_entry m x absent = ok (zset ((m, x) ∷ []))
  zadd_entry m x (zset z) = ok (zset (score_insert m x z))
  zadd_entry m x _ = err wrong_type

  abbrev pub zset_or_absent : List (String × F) → Entry F
  zset_or_absent [] = absent
  zset_or_absent (x ∷ z) = zset (x ∷ z)

  abbrev pub zrem_entry : String → Entry F → Result (Entry F)
  zrem_entry m absent = ok absent
  zrem_entry m (zset z) = ok (zset_or_absent (score_erase m z))
  zrem_entry m _ = err wrong_type

  abbrev pub zcard_entry : Entry F → Result ℕ
  zcard_entry absent = ok 0
  zcard_entry (zset z) = ok (length z)
  zcard_entry _ = err wrong_type

  -- SADD, SREM, SMEMBERS, SCARD
  abbrev pub set_or_absent : List String → Entry F
  set_or_absent [] = absent
  set_or_absent (x ∷ l) = set (x ∷ l)

  abbrev pub sadd_entry : String → Entry F → Result (Entry F)
  sadd_entry m absent = ok (set (m ∷ []))
  sadd_entry m (set l) = ok (set (member_insert m l))
  sadd_entry m _ = err wrong_type

  abbrev pub srem_entry : String → Entry F → Result (Entry F)
  srem_entry m absent = ok absent
  srem_entry m (set l) = ok (set_or_absent (member_erase m l))
  srem_entry m _ = err wrong_type

  abbrev pub smembers_entry : Entry F → Result (List String)
  smembers_entry absent = ok []
  smembers_entry (set l) = ok l
  smembers_entry _ = err wrong_type

  abbrev pub scard_entry : Entry F → Result ℕ
  scard_entry absent = ok 0
  scard_entry (set l) = ok (length l)
  scard_entry _ = err wrong_type

abbrev pub written : {F S : Type 0} → (Entry F → S) → Result (Entry F) → Result S
written w (ok e) = ok (w e)
written w (err x) = err x

pub record IsRedis ⦃p : Platform⦄ : Type 0 where
  pub view : Key → p.Store → Entry p.F
  pub write : Key → Entry p.F → p.Store → p.Store
  pub view-write_self : (k : Key) (e : Entry p.F) (s : p.Store) → view k (write k e s) ≡ e
  pub view-write_ne :
      (j k : Key) (e : Entry p.F) (s : p.Store) → j ≢ k → view j (write k e s) ≡ view j s
  pub get_lem : (k : Key) (s : p.Store) → p.redis_get k s ≡ get_entry (view k s)
  pub set_lem : (k : Key) (t : String) (s : p.Store) → p.redis_set k t s ≡ write k (string t) s
  pub setex_lem :
      (k : Key) (t : String) (n : ℤ) (s : p.Store) → p.redis_setex k t n s ≡ write k (string t) s
  pub delete_lem : (k : Key) (s : p.Store) → p.redis_delete k s ≡ write k absent s
  pub hgetall_lem : (k : Key) (s : p.Store) → p.redis_hgetall k s ≡ hgetall_entry (view k s)
  pub hset_lem :
      (k : Key) (m : Hash) (s : p.Store)
      → p.redis_hset k m s ≡ written (λ e. write k e s) (hset_entry m (view k s))
  pub zadd_lem :
      (k : Key) (m : String) (x : p.F) (s : p.Store)
      → p.redis_zadd k m x s ≡ written (λ e. write k e s) (zadd_entry m x (view k s))
  pub zrem_lem :
      (k : Key) (m : String) (s : p.Store)
      → p.redis_zrem k m s ≡ written (λ e. write k e s) (zrem_entry m (view k s))
  pub zcard_lem : (k : Key) (s : p.Store) → p.redis_zcard k s ≡ zcard_entry (view k s)
  pub sadd_lem :
      (k : Key) (m : String) (s : p.Store)
      → p.redis_sadd k m s ≡ written (λ e. write k e s) (sadd_entry m (view k s))
  pub srem_lem :
      (k : Key) (m : String) (s : p.Store)
      → p.redis_srem k m s ≡ written (λ e. write k e s) (srem_entry m (view k s))
  pub smembers_lem : (k : Key) (s : p.Store) → p.redis_smembers k s ≡ smembers_entry (view k s)
  pub scard_lem : (k : Key) (s : p.Store) → p.redis_scard k s ≡ scard_entry (view k s)
  pub type_lem : (k : Key) (s : p.Store) → p.redis_type k s ≡ type_entry (view k s)
  -- A time to live that is positive leaves every entry as it is, for now.
  pub expire_lem :
      (j k : Key) (n : ℕ) (s : p.Store) → view j (p.redis_expire k (pos (suc n)) s) ≡ view j s
  pub keys-In :
      (q : Pattern) (k : Key) (s : p.Store)
      → matches q k ≡ true
      → view k s ≢ absent
      → In k (p.redis_keys q s)
