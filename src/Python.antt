-- ===== src/Python.antt =====
-- Python's conversions and truth values on the values of a payload.
pub mod Order
use cloud_multi_agent_manage.Prelude.{
  String, Bool, true, false, not, Option, none, some, List, [], ◌∷◌, ◌&&◌, ◌||◌, str_eq, ◌==◌,
  if◌then◌else◌,
}
use Prim.Native.Char.{code}
use cloud_multi_agent_manage.Prelude.Int.{ℤ, pos, eq_ℤ}
use cloud_multi_agent_manage.Value.{
  Value, Payload, null, bool, int, float, str, list, dict, nil, cons, empty, field, lookup,
}
use cloud_multi_agent_manage.Platform.{
  Platform, Error, Result, ok, err, type_error, value_error, key_error, zero_division,
}

abbrev pub or_error {ℓ} : {A : Type ℓ} → Option A → Error → Result A
or_error none e = err e
or_error (some a) e = ok a

abbrev pub int_of_bool : Bool → ℤ
int_of_bool true = pos 1
int_of_bool false = pos 0

module _ ⦃p : Platform⦄ where
  open p use {F}

  -- `float(x)`
  abbrev pub float_of : Value F → Result F
  float_of (bool b) = ok (p.of_int (int_of_bool b))
  float_of (int z) = ok (p.of_int z)
  float_of (float x) = ok x
  float_of (str t) = or_error (p.parse_float t) value_error
  float_of _ = err type_error

  -- `int(x)`
  abbrev pub int_of : Value F → Result ℤ
  int_of (bool b) = ok (int_of_bool b)
  int_of (int z) = ok z
  int_of (float x) = or_error (p.trunc x) value_error
  int_of (str t) = or_error (p.parse_int t) value_error
  int_of _ = err type_error

  -- `str(x)`
  abbrev pub text_of : Value F → String
  text_of (str t) = t
  text_of (int z) = p.show_int z
  text_of (float x) = p.show_float x
  text_of v = p.show_value v

  -- `bool(x)`
  abbrev pub truthy : Value F → Bool
  truthy null = false
  truthy (bool b) = b
  truthy (int z) = not (eq_ℤ z (pos 0))
  truthy (float x) = not (p.le x (p.lit 0 0) && p.le (p.lit 0 0) x)
  truthy (str t) = not (str_eq t "")
  truthy (list nil) = false
  truthy (list (cons v l)) = true
  truthy (dict empty) = false
  truthy (dict (field k v d)) = true

  -- `min(a, b)` and `max(a, b)`: the first, unless the second is beyond it.
  abbrev pub min_F : F → F → F
  min_F a b = if p.lt b a then b else a

  abbrev pub max_F : F → F → F
  max_F a b = if p.lt a b then b else a

  -- `x == 0`
  abbrev pub is_zero : F → Bool
  is_zero x = p.le x (p.lit 0 0) && p.le (p.lit 0 0) x

  -- `a / b`
  abbrev pub true_divide : F → F → Result F
  true_divide a b = if is_zero b then err zero_division else ok (p.divide a b)

-- `v == t` for a text t, where a missing key is None.
abbrev pub is_text : {F : Type 0} → String → Option (Value F) → Bool
is_text t (some (str u)) = str_eq u t
is_text t _ = false

-- `t in {…}`
abbrev pub is_one_of : String → List String → Bool
is_one_of t [] = false
is_one_of t (u ∷ us) = let rest = is_one_of t us in str_eq t u || rest

-- `get_nested(config, *keys, default=…)`
unfoldable pub get_nested : {F : Type 0} → Value F → List String → Value F → Value F
get_nested current [] fallback = current
get_nested (dict d) (k ∷ ks) fallback = elim (lookup k d) [
  | none ↦ fallback
  | some v ↦ get_nested v ks fallback
]
get_nested _ (k ∷ ks) fallback = fallback

module _ ⦃p : Platform⦄ where
  open p use {F}

  -- `d[k]`, where a text is made of it: an identifier in a key of Redis.
  abbrev pub item : String → Payload F → Result String
  item k d = elim (lookup k d) [ none ↦ err (key_error k) | some v ↦ ok (text_of v) ]

  -- `bool(d.get(k))`
  abbrev pub is_true : Option (Value F) → Bool
  is_true none = false
  is_true (some v) = truthy v

-- `event_type.replace(".", "_")`
unfoldable pub replace_dots : String → String
replace_dots String.[] = String.[]
replace_dots (String.◌∷◌ c s) =
    let rest = replace_dots s in if code c == b'.' then String.◌∷◌ "_" rest else String.◌∷◌ c rest
