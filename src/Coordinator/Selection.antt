-- ===== src/Coordinator/Selection.antt =====
-- Which proposal the coordinator selects.
use mathlib.Core.Path.{subst}
use cloud_multi_agent_manage.Prelude.{
  ◌≡◌, refl, sym, ap, ◌∙◌, inl, inr, Bool, true, false, some, List, [], ◌∷◌, arith, In, keep,
  Bool-cases, if◌then◌else◌,
}
use cloud_multi_agent_manage.Value.{Value, Payload, lookup}
use cloud_multi_agent_manage.Python.{is_true}
use cloud_multi_agent_manage.Platform.{Platform, Result, ok}
use cloud_multi_agent_manage.Platform.Results.{>>=-ok}
use cloud_multi_agent_manage.Platform.Floats.{IsFloat}
use cloud_multi_agent_manage.Coordinator.Utility.{utility}
use cloud_multi_agent_manage.Coordinator.Ranking.{sorted_reverse}
use cloud_multi_agent_manage.Coordinator.Order.{IsTop, AllNum, first-IsTop, In-sorted_reverse}
use cloud_multi_agent_manage.Coordinator.Proposals.{is_safe}
use cloud_multi_agent_manage.Coordinator.Decide.{Signals, keyed, first_of_ranked, select}

if_false : {A : Type 0} (b : Bool) (x y : A) → b ≡ false → (if b then x else y) ≡ y
if_false b x y h = rw h

keep-In :
    {A : Type 0} (q : A → Bool) (z : A) (xs : List A) → In z xs → q z ≡ true → In z (keep q xs)
unfolding keep
keep-In q z [] m h = absurd m
keep-In q z (x ∷ xs) m h = ground (arith, keep-In q z xs)

In-keep :
    {A : Type 0} (q : A → Bool) (z : A) (xs : List A) → In z (keep q xs) → In z xs × (q z ≡ true)
unfolding keep
In-keep q z [] m = absurd m
In-keep q z (x ∷ xs) m = ground (arith, In-keep q z xs)

IsTop-In :
    {K A : Type 0} (lt : K → K → Bool) (k : K) (z : K × A) (xs : List (K × A))
    → IsTop lt k xs
    → In z xs
    → lt k z.0 ≡ false
IsTop-In lt k z [] t m = absurd m
IsTop-In lt k z (x ∷ xs) t (inl e) = rw e t.0
IsTop-In lt k z (x ∷ xs) t (inr m) = IsTop-In lt k z xs t.1 m

first_of_ranked-some :
    {K A : Type 0} (ks : List (K × A)) (d : A)
    → first_of_ranked ks ≡ some d
    → (h : K × A) × (t : List (K × A)) × (ks ≡ h ∷ t) × (h.1 ≡ d)
first_of_ranked-some [] d e = cc
first_of_ranked-some (h ∷ t) d e = (h, t, refl, cc)

module _ ⦃p : Platform⦄ where
  open p use {F}

  module _ (key : Payload F → Result F) where
    keyed-cons :
        (d : Payload F) (ds : List (Payload F)) (ks : List (F × Payload F))
        → keyed key (d ∷ ds) ≡ ok ks
        → (k : F) × (rest : List (F × Payload F)) × (key d ≡ ok k)
          × (keyed key ds ≡ ok rest)
          × (ks ≡ (k, d) ∷ rest)
    unfolding keyed
    keyed-cons d ds ks e =
        let (k, e', ek) = >>=-ok _ (key d) e in
        let (rest, e'', er) = >>=-ok _ (keyed key ds) e' in (k, rest, ek, er, cc)

    keyed-nil : (ks : List (F × Payload F)) → keyed key [] ≡ ok ks → ks ≡ []
    unfolding keyed
    keyed-nil ks e = cc

    In-keyed :
        (ds : List (Payload F)) (ks : List (F × Payload F)) (z : F × Payload F)
        → keyed key ds ≡ ok ks
        → In z ks
        → In z.1 ds × (key z.1 ≡ ok z.0)
    In-keyed [] ks z e m = absurd (subst (In z) (keyed-nil ks e) m)
    In-keyed (d ∷ ds) ks z e m =
        let (k, rest, ek, er, same) = keyed-cons d ds ks e in
        elim (subst (In z) same m) [
          | inl here ↦ (inl (ap (λ y. y.1) here), rw here ek)
          | inr later ↦ let (i, kz) = In-keyed ds rest z er later in (inr i, kz)
        ]

    keyed-In :
        (ds : List (Payload F)) (ks : List (F × Payload F)) (d : Payload F)
        → keyed key ds ≡ ok ks
        → In d ds
        → (k : F) × (key d ≡ ok k) × In (k, d) ks
    keyed-In [] ks d e m = absurd m
    keyed-In (x ∷ ds) ks d e m =
        let (k, rest, ek, er, same) = keyed-cons x ds ks e in
        elim m [
          | inl here ↦ (k, rw here ek, rw (same, here) (inl refl))
          | inr later ↦ let (j, ej, i) = keyed-In ds rest d er later in (j, ej, rw same (inr i))
        ]

    AllNum-keyed :
        (ds : List (Payload F)) (ks : List (F × Payload F))
        → ((d : Payload F) (u : F) → In d ds → key d ≡ ok u → p.le u u ≡ true)
        → keyed key ds ≡ ok ks
        → AllNum (λ u. p.le u u ≡ true) ks
    AllNum-keyed [] ks n e = rw (keyed-nil ks e) tt
    AllNum-keyed (d ∷ ds) ks n e =
        let (k, rest, ek, er, same) = keyed-cons d ds ks e in
        rw same (n d k (inl refl) ek, AllNum-keyed ds rest (λ x u i. n x u (inr i)) er)

  abbrev pub NamesSafeNode : Payload F → Type 0
  NamesSafeNode d =
      (is_true (lookup "node_id" d) ≡ true) × (is_true (lookup "resource_unsafe" d) ≡ false)

  is_safe-NamesSafeNode : (d : Payload F) → is_safe d ≡ true → NamesSafeNode d
  unfolding is_safe
  is_safe-NamesSafeNode d h = ground arith

  abbrev pub utility_of : Value F → Signals F → Payload F → Result F
  utility_of config s d = utility config d s.sla_signal s.forecast_signal

  select_by_utility :
      (config : Value F) (s : Signals F) (safe : List (Payload F)) (d : Payload F)
      → s.is_baseline ≡ false
      → select config s safe ≡ ok (some d)
      → (ks : List (F × Payload F)) × (keyed (utility_of config s) safe ≡ ok ks)
        × (first_of_ranked (sorted_reverse p.lt ks) ≡ some d)
  unfolding select
  select_by_utility config s safe d b e =
      let (ks, er, ek) =
        >>=-ok _ (keyed (utility_of config s) safe) (sym (if_false s.is_baseline _ _ b) ∙ e) in
      (ks, ek, cc)

  module _ (laws : IsFloat) where
    open laws use {le_trans, le_of_not-lt, not-lt_of_le, lt-le}

    not-lt_trans :
        (a b c : F)
        → p.le a a ≡ true
        → p.le b b ≡ true
        → p.le c c ≡ true
        → p.lt a b ≡ false
        → p.lt b c ≡ false
        → p.lt a c ≡ false
    not-lt_trans a b c na nb nc h k =
        not-lt_of_le c a (le_trans c b a (le_of_not-lt b c nb nc k) (le_of_not-lt a b na nb h))

    asymmetric : (a b : F) → p.lt a b ≡ true → p.lt b a ≡ false
    asymmetric a b h = not-lt_of_le a b (lt-le a b h)

    irreflexive : (a : F) → p.lt a a ≡ false
    irreflexive a = elim (Bool-cases (p.lt a a)) [ inl h ↦ asymmetric a a h | inr h ↦ h ]

    -- Outside the baseline mode, where the utilities of the safe proposals are numbers, the selected
    -- proposal is one of the candidates, names a node, is not marked unsafe, and no safe candidate
    -- has a higher utility.
    pub select-best :
        (config : Value F) (s : Signals F) (d : Payload F)
        → s.is_baseline ≡ false
        → ((x : Payload F) (u : F)
            → In x (keep is_safe s.candidates)
            → utility_of config s x ≡ ok u
            → p.le u u ≡ true)
        → select config s (keep is_safe s.candidates) ≡ ok (some d)
        → (u : F) × (utility_of config s d ≡ ok u)
          × In d s.candidates
          × NamesSafeNode d
          × ((x : Payload F) (v : F)
              → In x s.candidates
              → is_safe x ≡ true
              → utility_of config s x ≡ ok v
              → p.lt u v ≡ false)
    select-best config s d b n e =
        let safe = keep is_safe s.candidates in
        let key = utility_of config s in
        let (ks, ek, er) = select_by_utility config s safe d b e in
        let (h, rest, eh, same) = first_of_ranked-some (sorted_reverse p.lt ks) d er in
        let (i, eu) = In-keyed key safe ks h ek (In-sorted_reverse p.lt h ks (rw eh (inl refl))) in
        let (j, sd) = In-keep is_safe h.1 s.candidates i in
        let top =
          first-IsTop p.lt (λ (u : F). p.le u u ≡ true) not-lt_trans asymmetric irreflexive ks h
            rest (AllNum-keyed key safe ks n ek) eh in
        (
          h.0,
          rw (← same) eu,
          rw (← same) j,
          is_safe-NamesSafeNode d (rw (← same) sd),
          λ x v m sx ev.
              let (k, ek', ik) = keyed-In key safe ks x ek (keep-In is_safe x s.candidates m sx) in
              let same_key : k ≡ v = cc in rw (← same_key) (IsTop-In p.lt h.0 (k, x) ks top ik),
        )
