-- ===== src/Retry/Laws.antt =====
-- `retry_async` stops at the first call that succeeds, and gives up after its attempts.
use cloud_multi_agent_manage.Prelude.{ℕ, zero, suc, ◌+◌, ◌≤◌, ◌<◌, ◌≡◌, refl, arith, dec_lt}
use cloud_multi_agent_manage.Platform.{Error, Result, ok, err, runtime_error}
use cloud_multi_agent_manage.Retry.{retry_from, retry_async}

abbrev pub Fails : {A : Type 0} → Result A → Type 0
Fails (ok a) = ⊥
Fails (err x) = Unit

err-of-Fails : {A : Type 0} (r : Result A) → Fails r → (x : Error) × (r ≡ err x)
err-of-Fails (ok a) h = absurd h
err-of-Fails (err x) h = (x, refl)

retry_from-ok :
    {A : Type 0} (operation : ℕ → Result A) (left calls t : ℕ) (a : A)
    → calls ≤ t
    → t < calls + left
    → ((i : ℕ) → calls ≤ i → i < t → Fails (operation i))
    → operation t ≡ ok a
    → retry_from operation left calls ≡ (ok a, suc t)
unfolding retry_from
retry_from-ok operation zero calls t a le lt f s = absurd (omega arith)
retry_from-ok operation (suc left) calls t a le lt f s = elim (dec_lt calls t) [
  | yes before ↦
      let (x, e) = err-of-Fails (operation calls) (f calls (omega arith) before) in
      rw (e, retry_from)
        (retry_from-ok operation left (suc calls) t a before (omega arith)
          (λ i low high. f i (omega arith) high) s)
  | no after ↦
      let same : calls ≡ t = omega arith in
      let e : operation calls ≡ ok a = rw same s in rw (e, retry_from) (rw same)
]

retry_from-err :
    {A : Type 0} (operation : ℕ → Result A) (left calls : ℕ)
    → ((i : ℕ) → calls ≤ i → i < calls + left → Fails (operation i))
    → retry_from operation left calls
      ≡ (err (runtime_error "dependency is not available"), calls + left)
unfolding retry_from
retry_from-err operation zero calls f = ground arith
retry_from-err operation (suc left) calls f =
    let (x, e) = err-of-Fails (operation calls) (f calls (omega arith) (omega arith)) in
    rw (e, retry_from)
      (ground (
        arith,
        retry_from-err operation left (suc calls) (λ i low high. f i (omega arith) (omega arith)),
      ))

-- If the operation fails at the calls before the t-th and succeeds at the t-th, and t is below the
-- number of attempts, `retry_async` returns the value of the t-th call, and calls no more.
pub retry_async-ok :
    {A : Type 0} (operation : ℕ → Result A) (attempts t : ℕ) (a : A)
    → t < attempts
    → ((i : ℕ) → i < t → Fails (operation i))
    → operation t ≡ ok a
    → retry_async operation attempts ≡ (ok a, suc t)
unfolding retry_async
retry_async-ok operation attempts t a h f s =
    retry_from-ok operation attempts 0 t a (omega arith) (omega arith) (λ i _ high. f i high) s

-- If every one of the attempts fails, `retry_async` raises after exactly that many calls.
pub retry_async-err :
    {A : Type 0} (operation : ℕ → Result A) (attempts : ℕ)
    → ((i : ℕ) → i < attempts → Fails (operation i))
    → retry_async operation attempts ≡ (err (runtime_error "dependency is not available"), attempts)
unfolding retry_async
retry_async-err operation attempts f =
    ground (arith, retry_from-err operation attempts 0 (λ i _ high. f i (omega arith)))
