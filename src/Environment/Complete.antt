-- ===== src/Environment/Complete.antt =====
-- scripts/validate_env.py: what an environment that passes has.
use cloud_multi_agent_manage.Prelude.{
  String, true, false, ◌≡◌, refl, inl, inr, none, some, List, [], ◌∷◌, In, arith, str_eq, eq_refl,
  ◌↔◌, ◌⊎◌, Option-cases,
}
use cloud_multi_agent_manage.Value.{Hash, hash_lookup, is_empty}
use cloud_multi_agent_manage.Platform.{Platform}
use cloud_multi_agent_manage.Environment.{
  required, get_value, missing, is_set, parse_lines, exit_code,
}

module _ ⦃p : Platform⦄ where
  missing-empty :
      (environ values : Hash) (keys : List String) (key : String)
      → is_empty (missing environ values keys) ≡ true
      → In key keys
      → str_eq (get_value environ values key) "" ≡ false
  unfolding missing is_empty
  missing-empty environ values [] key h i = absurd i
  missing-empty environ values (k ∷ keys) key h (inl here) = rw here (ground arith)
  missing-empty environ values (k ∷ keys) key h (inr later) =
      let rest = missing-empty environ values keys key in ground (arith, rest)

  empty-missing :
      (environ values : Hash) (keys : List String)
      → ((key : String) → In key keys → str_eq (get_value environ values key) "" ≡ false)
      → is_empty (missing environ values keys) ≡ true
  unfolding missing is_empty
  empty-missing environ values [] h = ground arith
  empty-missing environ values (k ∷ keys) h =
      let rest = empty-missing environ values keys (λ key i. h key (inr i)) in
      let here = h k (inl refl) in ground (arith, rest, here)

  -- The text of a variable: that of the environment of the process, or else that of the file.
  abbrev pub Reads : Hash → Hash → String → String → Type 0
  Reads environ values key t =
      (hash_lookup key environ ≡ some t)
      ⊎ ((hash_lookup key environ ≡ none) × (hash_lookup key values ≡ some t))

  -- The variable has a text, and more than blanks.
  abbrev pub HasText : Hash → Hash → String → Type 0
  HasText environ values key =
      (t : String) × Reads environ values key t × (str_eq (p.strip t) "" ≡ false)

  -- What an environment and the variables of a file must have.
  abbrev pub IsComplete : Hash → Hash → Type 0
  IsComplete environ values =
      ((key : String) → In key required → HasText environ values key)
      × ((t : String)
          → Reads environ values "COMPOSE_PROJECT_NAME" t
          → str_eq (p.strip t) "." ≡ false)
      × ((t : String) → Reads environ values "PROJECT_NAME" t → str_eq (p.strip t) "" ≡ false)

  get_value-Reads :
      (environ values : Hash) (key t : String)
      → Reads environ values key t
      → get_value environ values key ≡ p.strip t
  unfolding get_value
  get_value-Reads environ values key t (inl e) = rw e refl
  get_value-Reads environ values key t (inr (e, f)) = rw (e, f) refl

  Reads-is_set :
      (environ values : Hash) (key t : String)
      → Reads environ values key t
      → is_set environ values key ≡ true
  Reads-is_set environ values key t (inl e) = ground (arith, e)
  Reads-is_set environ values key t (inr (e, f)) = ground (arith, e, f)

  is_set-Reads :
      (environ values : Hash) (key : String)
      → is_set environ values key ≡ true
      → (t : String) × Reads environ values key t
  is_set-Reads environ values key h = elim (Option-cases (hash_lookup key environ)) [
    | inl e ↦ elim (Option-cases (hash_lookup key values)) [
      | inl f ↦ absurd (ground (arith, e, f))
      | inr (t, f) ↦ (t, inr (e, f))
    ]
    | inr (t, e) ↦ (t, inl e)
  ]

  get_value-HasText :
      (environ values : Hash) (key : String)
      → p.strip "" ≡ ""
      → str_eq (get_value environ values key) "" ≡ false
      → HasText environ values key
  unfolding get_value
  get_value-HasText environ values key blank h = elim (Option-cases (hash_lookup key environ)) [
    | inl e ↦ elim (Option-cases (hash_lookup key values)) [
      | inl f ↦
          let full : str_eq (p.strip "") "" ≡ false = rw (e, f) at h in
          let empty : str_eq "" "" ≡ false = rw blank at full in
          absurd (ground (arith, empty, eq_refl ""))
      | inr (t, f) ↦ (t, inr (e, f), rw (e, f) at h)
    ]
    | inr (t, e) ↦ (t, inl e, rw e at h)
  ]

  HasText-get_value :
      (environ values : Hash) (key : String)
      → HasText environ values key
      → str_eq (get_value environ values key) "" ≡ false
  HasText-get_value environ values key (t, r, n) = rw (get_value-Reads environ values key t r) n

  -- The check of a file that exists exits with 0 exactly where every required variable has a text that is
  -- more than blanks, in the environment of the process or else in the file, the project's name for
  -- compose is not ".", and PROJECT_NAME, where it is set at all, is more than blanks. `strip` must
  -- leave the empty text empty.
  pub exit_code-IsComplete :
      (environ : Hash) (lines : List String)
      → p.strip "" ≡ ""
      → (exit_code environ (some lines) ≡ 0) ↔ IsComplete environ (parse_lines lines [])
  unfolding exit_code
  exit_code-IsComplete environ lines blank =
      let values = parse_lines lines [] in
      let name : String = "COMPOSE_PROJECT_NAME" in
      let project : String = "PROJECT_NAME" in
      (
        λ h.
            let a : is_empty (missing environ values required) ≡ true = ground arith in
            let dot : str_eq (get_value environ values name) "." ≡ false = ground arith in
            (
              λ key i.
                  get_value-HasText environ values key blank
                    (missing-empty environ values required key a i),
              λ t r. rw (get_value-Reads environ values name t r) at dot,
              λ t r.
                  let s = Reads-is_set environ values project t r in
                  let full : str_eq (get_value environ values project) "" ≡ false =
                    ground (arith, s) in
                  rw (get_value-Reads environ values project t r) at full,
            ),
        λ (a, b, c).
            let full : (key : String)
                → In key required
                → str_eq (get_value environ values key) "" ≡ false =
              λ key i. HasText-get_value environ values key (a key i) in
            let all = empty-missing environ values required full in
            let named = full name (inl refl) in
            let (t, r, n) = a name (inl refl) in
            let dot : str_eq (get_value environ values name) "." ≡ false =
              rw (get_value-Reads environ values name t r) (b t r) in
            let given = λ (s : is_set environ values project ≡ true).
              let (x, y) = is_set-Reads environ values project s in
              HasText-get_value environ values project (x, y, c x y) in
            ground (arith, all, named, dot, given),
      )
