-- ===== src/Rabbit/Connect.antt =====
-- common/cloudrm/rabbit.py: `connect_with_retry`. The i-th attempt at a connection is `connect i`.
use cloud_multi_agent_manage.Prelude.{ℕ, zero, suc, ◌≡◌, refl, arith}
use cloud_multi_agent_manage.Platform.{Result, ok, err, runtime_error}
use cloud_multi_agent_manage.Retry.{retry_from, retry_async}

unfoldable pub connect_from : {A : Type 0} → (ℕ → Result A) → ℕ → ℕ → Result A × ℕ
connect_from connect zero calls =
    (err (runtime_error "RabbitMQ did not become available after its attempts"), calls)
connect_from connect (suc left) calls =
    let rest = connect_from connect left (suc calls) in
    elim (connect calls) [ ok a ↦ (ok a, suc calls) | err x ↦ rest ]

unfoldable pub connect_with_retry : {A : Type 0} → (ℕ → Result A) → ℕ → Result A × ℕ
unfolding connect_from
connect_with_retry connect attempts = connect_from connect attempts 0

-- The error that it raises in place of that of `retry_async`.
abbrev pub renamed : {A : Type 0} → Result A × ℕ → Result A × ℕ
renamed (ok a, n) = (ok a, n)
renamed (err x, n) = (err (runtime_error "RabbitMQ did not become available after its attempts"), n)

connect_from-eq-retry_from :
    {A : Type 0} (connect : ℕ → Result A) (left calls : ℕ)
    → connect_from connect left calls ≡ renamed (retry_from connect left calls)
unfolding connect_from retry_from
connect_from-eq-retry_from connect zero calls = refl
connect_from-eq-retry_from connect (suc left) calls =
    ground (arith, connect_from-eq-retry_from connect left (suc calls))

-- `connect_with_retry` is `retry_async` but for its last error: it makes the same number of
-- attempts, returns the same connection, and raises where `retry_async` does.
pub connect_with_retry-eq-retry_async :
    {A : Type 0} (connect : ℕ → Result A) (attempts : ℕ)
    → connect_with_retry connect attempts ≡ renamed (retry_async connect attempts)
unfolding connect_with_retry retry_async
connect_with_retry-eq-retry_async connect attempts = connect_from-eq-retry_from connect attempts 0
