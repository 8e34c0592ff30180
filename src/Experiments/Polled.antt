-- ===== src/Experiments/Polled.antt =====
-- scripts/run_experiments.py: no task is lost while the experiments wait, and a percentile is a value.
use cloud_multi_agent_manage.Prelude.{
  ℕ, zero, suc, ◌+◌, ◌-◌, ◌≤◌, ◌<◌, ◌≡◌, refl, String, true, false, inl, inr, Option, some, List,
  [], ◌∷◌, length, length-append, In, Bool, if◌then◌else◌, arith, dec_lt,
}
use cloud_multi_agent_manage.Prelude.Int.{pos, min_ℤ}
use cloud_multi_agent_manage.Platform.{Platform, ok}
use cloud_multi_agent_manage.Experiments.Metrics.{
  poll, wait_for_completion, get_elem?, place, sorted, percentile, rank,
}

length-poll :
    (status_of : String → Option String) (ts : List String)
    → let (finished, rest) = poll status_of ts in length finished + length rest ≡ length ts
unfolding poll
length-poll status_of [] = refl
length-poll status_of (t ∷ ts) = ground (arith, length-poll status_of ts)

-- Every task that was submitted is reported as finished or is left, and none is counted twice, however
-- many passes there are and whatever the API answers.
pub length-wait_for_completion :
    (answers : ℕ → String → Option String) (passes : ℕ) (ts : List String)
    → let (finished, rest) = wait_for_completion answers passes ts in
      length finished + length rest ≡ length ts
unfolding wait_for_completion
length-wait_for_completion answers zero ts = omega arith
length-wait_for_completion answers (suc n) [] = omega arith
length-wait_for_completion answers (suc n) (t ∷ ts) =
    let (finished, rest) = poll (answers n) (t ∷ ts) in
    let (later, left) = wait_for_completion answers n rest in
    omega (
      arith,
      length-poll (answers n) (t ∷ ts),
      length-wait_for_completion answers n rest,
      length-append finished later,
    )

min_pos : (a b : ℕ) → (j : ℕ) × (min_ℤ (pos a) (pos b) ≡ pos j) × (j ≤ a)
min_pos a b = elim (dec_lt b a) [
  | yes h ↦ (b, ground arith, omega arith)
  | no h ↦ (a, ground arith, omega arith)
]

module _ ⦃p : Platform⦄ where
  open p use {F}

  length-place : (x : F) (l : List F) → length (place x l) ≡ suc (length l)
  unfolding place
  length-place x [] = refl
  length-place x (y ∷ l) = ground (arith, length-place x l)

  In-place_step :
      (x y u : F) (l : List F) (b : Bool)
      → (In y (place x l) → In y (x ∷ l))
      → In y (if b then u ∷ place x l else x ∷ u ∷ l)
      → In y (x ∷ u ∷ l)
  In-place_step x y u l true rest (inl e) = inr (inl e)
  In-place_step x y u l true rest (inr i) = elim (rest i) [ inl e ↦ inl e | inr j ↦ inr (inr j) ]
  In-place_step x y u l false rest i = i

  In-place : (x y : F) (l : List F) → In y (place x l) → In y (x ∷ l)
  unfolding place
  In-place x y [] i = i
  In-place x y (u ∷ l) i = In-place_step x y u l (p.lt u x) (In-place x y l) i

  In-sorted : (y : F) (l : List F) → In y (sorted l) → In y l
  unfolding sorted
  In-sorted y [] i = i
  In-sorted y (x ∷ l) i = elim (In-place x y (sorted l) i) [
    | inl e ↦ inl e
    | inr j ↦ inr (In-sorted y l j)
  ]

  length-sorted : (l : List F) → length (sorted l) ≡ length l
  unfolding sorted
  length-sorted [] = refl
  length-sorted (x ∷ l) = omega (arith, length-place x (sorted l), length-sorted l)

  get_elem?-In : (l : List F) (n : ℕ) → n < length l → (x : F) × (get_elem? l n ≡ some x) × In x l
  unfolding get_elem?
  get_elem?-In [] n h = absurd (omega arith)
  get_elem?-In (x ∷ l) zero h = (x, refl, inl refl)
  get_elem?-In (x ∷ l) (suc n) h = let (y, e, i) = get_elem?-In l n (omega arith) in (y, e, inr i)

  -- The percentile of values that are there is one of them, wherever its rank rounds to an index that
  -- is not negative, also to one beyond the last.
  pub percentile-In :
      (v : F) (l : List F) (pct k : ℕ)
      → rank pct (length (sorted (v ∷ l))) ≡ some (pos k)
      → (x : F) × (percentile (v ∷ l) pct ≡ ok x) × In x (v ∷ l)
  unfolding percentile
  percentile-In v l pct k h =
      let ordered = sorted (v ∷ l) in
      let size = length-sorted (v ∷ l) in
      let (j, m, le) = min_pos (length ordered - 1) k in
      let (x, e, i) = get_elem?-In ordered j (omega (arith, size)) in
      (x, rw (h, m, e) refl, In-sorted x (v ∷ l) i)
