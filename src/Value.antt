-- ===== src/Value.antt =====
-- The values of a JSON payload (`dict[str, Any]`), which every event and every handler passes on.
-- `F` is the type of Python's floats.
pub mod Laws
use cloud_multi_agent_manage.Prelude.{
  ℕ, String, Bool, true, false, Option, none, some, List, [], ◌∷◌, str_eq, if◌then◌else◌,
}
use cloud_multi_agent_manage.Prelude.Int.{ℤ}

mutual
  pub data Value (F : Type 0) : Type 0 where
    null : Value F
    bool : Bool → Value F
    int : ℤ → Value F
    float : F → Value F
    str : String → Value F
    list : Items F → Value F
    dict : Payload F → Value F

  pub data Items (F : Type 0) : Type 0 where
    nil : Items F
    cons : Value F → Items F → Items F

  pub data Payload (F : Type 0) : Type 0 where
    empty : Payload F
    field : String → Value F → Payload F → Payload F

-- A hash of Redis: both sides are texts.
abbrev pub Hash : Type 0
Hash = List (String × String)

module _ {F : Type 0} where
  -- `d.get(k)`, with `none` for a missing key.
  unfoldable pub lookup : String → Payload F → Option (Value F)
  lookup k empty = none
  lookup k (field j v d) = let rest = lookup k d in if str_eq j k then some v else rest

  -- `d.get(k, default)`.
  unfoldable pub get_or : String → Value F → Payload F → Value F
  get_or k v d = elim (lookup k d) [ none ↦ v | some x ↦ x ]

  -- `{**d, k: v}`: a present key keeps its place.
  unfoldable pub insert : String → Value F → Payload F → Payload F
  insert k v empty = field k v empty
  insert k v (field j w d) =
      let rest = insert k v d in if str_eq j k then field j v d else field j w rest

  -- `{**a, **b}`.
  unfoldable pub merge : Payload F → Payload F → Payload F
  merge a empty = a
  merge a (field k v b) = merge (insert k v a) b

  -- A hash read from Redis, spread into a payload.
  unfoldable pub of_hash : Hash → Payload F
  of_hash [] = empty
  of_hash ((k, v) ∷ h) = field k (str v) (of_hash h)

-- `h.get(k)` on a hash.
unfoldable pub hash_lookup : String → Hash → Option String
hash_lookup k [] = none
hash_lookup k ((j, v) ∷ h) = let rest = hash_lookup k h in if str_eq j k then some v else rest

-- `HSET`: the fields given replace those that are there.
unfoldable pub hash_insert : String → String → Hash → Hash
hash_insert k v [] = (k, v) ∷ []
hash_insert k v ((j, w) ∷ h) =
    let rest = hash_insert k v h in if str_eq j k then (j, v) ∷ h else (j, w) ∷ rest

unfoldable pub hash_update : Hash → Hash → Hash
hash_update h [] = h
hash_update h ((k, v) ∷ m) = hash_update (hash_insert k v h) m

-- `bool(h)` of a hash.
unfoldable pub is_empty {ℓ} : {A : Type ℓ} → List A → Bool
is_empty [] = true
is_empty (x ∷ xs) = false
