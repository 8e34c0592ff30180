-- ===== src/Retry.antt =====
-- common/cloudrm/retry.py: `retry_async`. The i-th call of the operation is `operation i`.
pub mod Laws
use cloud_multi_agent_manage.Prelude.{ℕ, zero, suc}
use cloud_multi_agent_manage.Platform.{Result, ok, err, runtime_error}

-- The loop with `left` attempts to go, and the number of calls that it has made.
unfoldable pub retry_from : {A : Type 0} → (ℕ → Result A) → ℕ → ℕ → Result A × ℕ
retry_from operation zero calls = (err (runtime_error "dependency is not available"), calls)
retry_from operation (suc left) calls =
    let rest = retry_from operation left (suc calls) in
    elim (operation calls) [ ok a ↦ (ok a, suc calls) | err x ↦ rest ]

unfoldable pub retry_async : {A : Type 0} → (ℕ → Result A) → ℕ → Result A × ℕ
unfolding retry_from
retry_async operation attempts = retry_from operation attempts 0
