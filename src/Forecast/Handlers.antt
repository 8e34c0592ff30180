-- ===== src/Forecast/Handlers.antt =====
-- services/forecast_agent/main.py: the window of arrivals and the body of `worker`.
use cloud_multi_agent_manage.Prelude.{
  ℕ, Bool, none, some, List, [], ◌∷◌, ◌++◌, length, ltb, str_eq, if◌then◌else◌,
}
use cloud_multi_agent_manage.Prelude.Int.{ℤ, pos}
use cloud_multi_agent_manage.Value.{int, float, field, empty, merge, Hash}
use cloud_multi_agent_manage.Key.{waiting, forecast_latest}
use cloud_multi_agent_manage.Platform
use cloud_multi_agent_manage.Platform.{Platform, Result, ok, err, value_error}
use cloud_multi_agent_manage.Message.{EventEnvelope}
use cloud_multi_agent_manage.Python.{or_error, min_F, max_F, true_divide}
use cloud_multi_agent_manage.Runtime.{announce}
use cloud_multi_agent_manage.Exec.{World, Exec, pure, lift, query, ◌>>=◌, ◌>>◌, command, now}

abbrev pub maxlen : ℕ
maxlen = 20

-- `window.append(x)` on a `deque(maxlen=n)`: a full one drops its first element.
abbrev pub rest_of : {A : Type 0} → List A → List A
rest_of [] = []
rest_of (x ∷ xs) = xs

unfoldable pub append : {A : Type 0} → ℕ → A → List A → List A
append n x window = if ltb (length window) n then window ++ (x ∷ []) else rest_of window ++ (x ∷ [])

module _ ⦃p : Platform⦄ where
  open p use {F}

  -- `[b - a for a, b in zip(l, l[1:])]`
  unfoldable pub intervals_from : F → List F → List F
  intervals_from a [] = []
  intervals_from a (b ∷ l) = p.subtract b a ∷ intervals_from b l

  unfoldable pub intervals : List F → List F
  unfolding intervals_from
  intervals [] = []
  intervals (a ∷ l) = intervals_from a l

  abbrev rate_of : List F → Result F
  rate_of [] = ok (p.lit 0 1)
  rate_of (x ∷ l) =
      let n = p.of_int (pos (length (x ∷ l))) in
      Platform.◌>>=◌ (true_divide (p.sum (x ∷ l)) n)
        λ mean. true_divide (p.lit 10 1) (max_F mean (p.lit 1 3))

  unfoldable pub arrival_rate : List F → Result F
  unfolding intervals
  arrival_rate window = rate_of (intervals window)

  unfoldable pub predicted_queue : ℕ → F → Result ℤ
  predicted_queue queue_len rate =
      or_error (p.trunc (p.add (p.of_int (pos queue_len)) (p.times rate (p.of_int (pos 5)))))
        value_error

  -- 20.0 is not zero.
  unfoldable pub overload_risk : ℤ → F
  overload_risk predicted = min_F (p.lit 10 1) (p.divide (p.of_int predicted) (p.lit 200 1))

  abbrev pub forecast_hash : ℤ → F → F → Hash
  forecast_hash predicted risk rate =
      ("predicted_queue", p.show_int predicted)
      ∷ ("overload_risk", p.show_float risk)
      ∷ ("arrival_rate", p.show_float rate)
      ∷ []

  -- The first statement of the `try`.
  unfoldable pub observe : EventEnvelope F → List F → Exec (List F)
  observe e window =
      if str_eq e.event_type "request.classified"
      then (do t ← now; pure (append maxlen t window))
      else pure window

  -- The rest of it, but for the commit.
  unfoldable pub forecast : EventEnvelope F → List F → Exec (Unit {0})
  forecast e window = do
    queue_len ← query (p.redis_zcard waiting)
    rate ← lift (arrival_rate window)
    predicted ← lift (predicted_queue queue_len rate)
    let risk = overload_risk predicted
    command (p.redis_hset forecast_latest (forecast_hash predicted risk rate))
    announce "forecast_queue" "forecast.queue" e.correlation_id "forecast-agent" (
        merge e.payload (
          field "predicted_queue" (int predicted) (
            field "overload_risk" (float (p.round4 risk))
              (field "arrival_rate" (float (p.round4 rate)) empty))))

  abbrev settle : Result (Unit {0}) → World → Bool × World
  settle (ok u) w = (Bool.true, record w { last_error = none })
  settle (err x) w = (Bool.false, record w { last_error = some (p.show_error x) })

  abbrev kept_window : Result (List F) → List F → List F
  kept_window (ok window) old = window
  kept_window (err x) old = old

  -- One message: whether it is committed, the window after it, and the world.
  unfoldable pub handle : EventEnvelope F → List F → World → Bool × List F × World
  unfolding observe forecast
  handle e window w =
      let (r, w') = observe e window w in
      let window' = kept_window r window in
      let (q, w'') = forecast e window' w' in
      let (committed, v) = settle q w'' in (committed, window', v)

  -- The `async for`, over the messages that arrive; `others` is what happens to the world before each.
  unfoldable pub worker : (World → World) → List (EventEnvelope F) → List F → World → List F × World
  worker others [] window w = (window, w)
  worker others (e ∷ es) window w =
      let (_, window', w') = handle e window (others w) in worker others es window' w'
