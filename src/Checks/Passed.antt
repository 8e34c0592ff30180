-- ===== src/Checks/Passed.antt =====
-- What the exit code 0 of scripts/validate_runtime.py says of the stack.
use Prim.Native.String.{String}
use cloud_multi_agent_manage.Prelude.{
  ℕ, zero, suc, ◌+◌, ◌<◌, ◌≡◌, refl, sym, ap, ◌∙◌, subst, arith, inl, inr, true, false, Option,
  none, some, eq_iff, Option-cases,
}
use cloud_multi_agent_manage.Value.{Value, Payload, dict, str, lookup}
use cloud_multi_agent_manage.Platform.{Platform, Result, ok, err, key_error}
use cloud_multi_agent_manage.Python.{is_text, or_error}
use cloud_multi_agent_manage.Checks.{verdict, verdict_of, decided, poll}

module _ ⦃p : Platform⦄ where
  open p use {F}

  -- The reading gives a task in that status.
  abbrev pub Says : String → Result (Value F) → Type 0
  Says status r = (d : Payload F) × (r ≡ ok (dict d)) × (lookup "status" d ≡ some (str status))

  -- The reading gives a task in a status that is neither of the two final ones.
  abbrev pub IsPending : Result (Value F) → Type 0
  IsPending r =
      (d : Payload F) × (v : Value F) × (r ≡ ok (dict d))
      × (lookup "status" d ≡ some v)
      × (is_text "done" (some v) ≡ false)
      × (is_text "failed" (some v) ≡ false)

  pub is_text-str : (t : String) (v : Value F) → is_text t (some v) ≡ true → v ≡ str t
  is_text-str t (str u) h = ap str ((eq_iff u t).0 h)
  is_text-str t Value.null h = cc
  is_text-str t (Value.bool b) h = cc
  is_text-str t (Value.int z) h = cc
  is_text-str t (Value.float x) h = cc
  is_text-str t (Value.list l) h = cc
  is_text-str t (dict d) h = cc

  verdict_of-done :
      (d : Payload F) (o : Option (Value F))
      → lookup "status" d ≡ o
      → verdict_of (or_error o (key_error "status")) ≡ some true
      → Says "done" (ok (dict d))
  verdict_of-done d none e h = cc
  verdict_of-done d (some v) e h =
      let final : is_text "done" (some v) ≡ true = ground (arith, h) in
      (d, refl, e ∙ ap some (is_text-str "done" v final))

  verdict-done : (r : Result (Value F)) → verdict r ≡ some true → Says "done" r
  verdict-done (err x) h = cc
  verdict-done (ok Value.null) h = cc
  verdict-done (ok (Value.bool b)) h = cc
  verdict-done (ok (Value.int z)) h = cc
  verdict-done (ok (Value.float x)) h = cc
  verdict-done (ok (str t)) h = cc
  verdict-done (ok (Value.list l)) h = cc
  verdict-done (ok (dict d)) h = verdict_of-done d (lookup "status" d) refl h

  verdict_of-IsPending :
      (d : Payload F) (o : Option (Value F))
      → lookup "status" d ≡ o
      → verdict_of (or_error o (key_error "status")) ≡ none
      → IsPending (ok (dict d))
  verdict_of-IsPending d none e h = cc
  verdict_of-IsPending d (some v) e h = (d, v, refl, e, ground (arith, h), ground (arith, h))

  verdict-IsPending : (r : Result (Value F)) → verdict r ≡ none → IsPending r
  verdict-IsPending (err x) h = cc
  verdict-IsPending (ok Value.null) h = cc
  verdict-IsPending (ok (Value.bool b)) h = cc
  verdict-IsPending (ok (Value.int z)) h = cc
  verdict-IsPending (ok (Value.float x)) h = cc
  verdict-IsPending (ok (str t)) h = cc
  verdict-IsPending (ok (Value.list l)) h = cc
  verdict-IsPending (ok (dict d)) h = verdict_of-IsPending d (lookup "status" d) refl h

  -- Within n readings, from the i-th on, the task was done, and until then it was pending.
  abbrev pub IsDoneWithin : (ℕ → Result (Value F)) → ℕ → ℕ → Type 0
  IsDoneWithin current i n =
      (k : ℕ) × (k < n)
      × Says "done" (current (i + k))
      × ((j : ℕ) → j < k → IsPending (current (i + j)))

  IsDoneWithin-suc :
      (current : ℕ → Result (Value F)) (i n : ℕ)
      → IsPending (current i)
      → IsDoneWithin current (suc i) n
      → IsDoneWithin current i (suc n)
  IsDoneWithin-suc current i n pending (k, l, done, before) =
      (suc k, omega arith, subst (λ m. Says "done" (current m)) (omega arith) done, λ j. earlier j)
    where
      earlier : (j : ℕ) → j < suc k → IsPending (current (i + j))
      earlier zero m = subst (λ a. IsPending (current a)) (omega arith) pending
      earlier (suc j) m = subst (λ a. IsPending (current a)) (omega arith) (before j (omega arith))

  pub poll-IsDoneWithin :
      (current : ℕ → Result (Value F)) (i n : ℕ)
      → poll current i n ≡ true
      → IsDoneWithin current i n
  unfolding poll
  poll-IsDoneWithin current i zero h = cc
  poll-IsDoneWithin current i (suc n) h = elim (Option-cases (verdict (current i))) [
    | inl pending ↦
        let later : poll current (suc i) n ≡ true =
          sym (ap (λ o. decided o (poll current (suc i) n)) pending) ∙ h in
        IsDoneWithin-suc current i n (verdict-IsPending (current i) pending)
          (poll-IsDoneWithin current (suc i) n later)
    | inr (b, e) ↦
        let yes : b ≡ true = sym (ap (λ o. decided o (poll current (suc i) n)) e) ∙ h in
        (
          0,
          omega arith,
          verdict-done (current (i + 0))
              (ap (λ m. verdict (current m)) (omega arith) ∙ e ∙ ap some yes),
          λ j m. absurd (omega arith),
        )
  ]
