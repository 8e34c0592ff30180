-- ===== src/Value/Laws.antt =====
-- What a lookup sees after an insertion or a merge.
use cloud_multi_agent_manage.Prelude.{
  String, ◌≡◌, refl, Option, none, some, [], ◌∷◌, arith, str_eq, eq_iff, if◌then◌else◌,
}
use cloud_multi_agent_manage.Value.{
  Value, Payload, empty, field, Hash, lookup, insert, get_or, hash_lookup, hash_insert,
}

abbrev pub or_else {ℓ} : {A : Type ℓ} → Option A → Option A → Option A
or_else none b = b
or_else (some a) b = some a

module _ {F : Type 0} where
  pub lookup-insert :
      (k j : String) (v : Value F) (d : Payload F)
      → lookup j (insert k v d) ≡ (if str_eq k j then some v else lookup j d)
  unfolding lookup insert
  lookup-insert k j v empty = refl
  lookup-insert k j v (field i w d) =
      ground (arith, eq_iff k j, eq_iff i k, eq_iff i j, lookup-insert k j v d)

  pub get_or-insert :
      (k j : String) (v x : Value F) (d : Payload F)
      → get_or j x (insert k v d) ≡ (if str_eq k j then v else get_or j x d)
  unfolding get_or
  get_or-insert k j v x d = ground (arith, lookup-insert k j v d)

pub hash_lookup-insert :
    (k j : String) (v : String) (h : Hash)
    → hash_lookup j (hash_insert k v h) ≡ (if str_eq k j then some v else hash_lookup j h)
unfolding hash_lookup hash_insert
hash_lookup-insert k j v [] = refl
hash_lookup-insert k j v ((i, w) ∷ h) =
    ground (arith, eq_iff k j, eq_iff i k, eq_iff i j, hash_lookup-insert k j v h)
