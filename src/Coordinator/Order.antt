-- ===== src/Coordinator/Order.antt =====
-- What `sorted(…, reverse=True)` gives, and so what the coordinator selects.
use cloud_multi_agent_manage.Prelude.{
  ◌≡◌, inl, inr, Bool, true, false, List, [], ◌∷◌, arith, In, Bool-cases,
}
use cloud_multi_agent_manage.Coordinator.Ranking.{place, sorted_reverse}

-- Every key of the list satisfies Num.
abbrev pub AllNum {ℓ} : {K A : Type ℓ} → (K → Type 0) → List (K × A) → Type 0
AllNum Num [] = Unit
AllNum Num (x ∷ xs) = Num x.0 × AllNum Num xs

module _ {ℓ} {K A : Type ℓ} (lt : K → K → Bool) where
  -- No key of the list is above k.
  abbrev pub IsTop : K → List (K × A) → Type 0
  IsTop k [] = Unit
  IsTop k (y ∷ ys) = (lt k y.0 ≡ false) × IsTop k ys

  -- Every key is at least each key behind it.
  abbrev pub IsFalling : List (K × A) → Type 0
  IsFalling [] = Unit
  IsFalling (x ∷ xs) = IsTop x.0 xs × IsFalling xs

  module _ (Num : K → Type 0)
      (not-lt_trans : (a b c : K)
        → Num a
        → Num b
        → Num c
        → lt a b ≡ false
        → lt b c ≡ false
        → lt a c ≡ false)
      (asymmetric : (a b : K) → lt a b ≡ true → lt b a ≡ false)
      (irreflexive : (a : K) → lt a a ≡ false) where
    AllNum-place :
        (x : K × A) (ys : List (K × A)) → Num x.0 → AllNum Num ys → AllNum Num (place lt x ys)
    unfolding place
    AllNum-place x [] n ns = (n, tt)
    AllNum-place x (y ∷ ys) n ns = ground (arith, AllNum-place x ys n ns.1)

    AllNum-sorted_reverse : (xs : List (K × A)) → AllNum Num xs → AllNum Num (sorted_reverse lt xs)
    unfolding sorted_reverse
    AllNum-sorted_reverse [] ns = tt
    AllNum-sorted_reverse (x ∷ xs) ns =
        AllNum-place x (sorted_reverse lt xs) ns.0 (AllNum-sorted_reverse xs ns.1)

    IsTop-place :
        (k : K) (x : K × A) (ys : List (K × A))
        → lt k x.0 ≡ false
        → IsTop k ys
        → IsTop k (place lt x ys)
    unfolding place
    IsTop-place k x [] h t = (h, tt)
    IsTop-place k x (y ∷ ys) h t = ground (arith, IsTop-place k x ys h t.1)

    IsTop-place_inv :
        (k : K) (x : K × A) (ys : List (K × A)) → IsTop k (place lt x ys) → IsTop k (x ∷ ys)
    unfolding place
    IsTop-place_inv k x [] t = t
    IsTop-place_inv k x (y ∷ ys) t = ground (arith, IsTop-place_inv k x ys)

    IsTop-sorted_reverse_inv :
        (k : K) (xs : List (K × A)) → IsTop k (sorted_reverse lt xs) → IsTop k xs
    unfolding sorted_reverse
    IsTop-sorted_reverse_inv k [] t = tt
    IsTop-sorted_reverse_inv k (x ∷ xs) t =
        let both = IsTop-place_inv k x (sorted_reverse lt xs) t in
        (both.0, IsTop-sorted_reverse_inv k xs both.1)

    IsTop-trans :
        (k j : K) (ys : List (K × A))
        → Num k
        → Num j
        → AllNum Num ys
        → lt k j ≡ false
        → IsTop j ys
        → IsTop k ys
    IsTop-trans k j [] nk nj ns h t = tt
    IsTop-trans k j (y ∷ ys) nk nj ns h t =
        (not-lt_trans k j y.0 nk nj ns.0 h t.0, IsTop-trans k j ys nk nj ns.1 h t.1)

    place-IsFalling :
        (x : K × A) (ys : List (K × A))
        → Num x.0
        → AllNum Num ys
        → IsFalling ys
        → IsFalling (place lt x ys)
    unfolding place
    place-IsFalling x [] n ns f = (tt, tt)
    place-IsFalling x (y ∷ ys) n ns f = elim (Bool-cases (lt x.0 y.0)) [
      | inl below ↦
          rw below
            (IsTop-place y.0 x ys (asymmetric x.0 y.0 below) f.0, place-IsFalling x ys n ns.1 f.1)
      | inr above ↦ rw above ((above, IsTop-trans x.0 y.0 ys n ns.0 ns.1 above f.0), f)
    ]

    -- The sorted list falls: no key is below a key behind it.
    pub sorted_reverse-IsFalling :
        (xs : List (K × A)) → AllNum Num xs → IsFalling (sorted_reverse lt xs)
    unfolding sorted_reverse
    sorted_reverse-IsFalling [] ns = tt
    sorted_reverse-IsFalling (x ∷ xs) ns =
        place-IsFalling x (sorted_reverse lt xs) ns.0 (AllNum-sorted_reverse xs ns.1)
          (sorted_reverse-IsFalling xs ns.1)

    -- No item has a key above that of the first item of the sorted list.
    pub first-IsTop :
        (xs : List (K × A)) (h : K × A) (t : List (K × A))
        → AllNum Num xs
        → sorted_reverse lt xs ≡ h ∷ t
        → IsTop h.0 xs
    first-IsTop xs h t ns e =
        let falls : IsFalling (h ∷ t) = rw e at (sorted_reverse-IsFalling xs ns) in
        IsTop-sorted_reverse_inv h.0 xs (rw e (irreflexive h.0, falls.0))

In-place :
    {K A : Type 0} (lt : K → K → Bool) (z x : K × A) (ys : List (K × A))
    → In z (place lt x ys)
    → In z (x ∷ ys)
unfolding place
In-place lt z x [] m = m
In-place lt z x (y ∷ ys) m = ground (arith, In-place lt z x ys)

-- What the sorted list holds is an item of the list.
pub In-sorted_reverse :
    {K A : Type 0} (lt : K → K → Bool) (z : K × A) (xs : List (K × A))
    → In z (sorted_reverse lt xs)
    → In z xs
unfolding sorted_reverse
In-sorted_reverse lt z [] m = m
In-sorted_reverse lt z (x ∷ xs) m = elim (In-place lt z x (sorted_reverse lt xs) m) [
  | inl here ↦ inl here
  | inr later ↦ inr (In-sorted_reverse lt z xs later)
]
