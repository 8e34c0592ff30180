-- ===== src/Forecast/Window.antt =====
-- services/forecast_agent/main.py: the window holds the last arrivals.
use cloud_multi_agent_manage.Prelude.{
  ℕ, zero, suc, ◌-◌, ◌≤◌, ◌<◌, ◌≡◌, refl, sym, ap, ◌∙◌, dec_lt, List, [], ◌∷◌, ◌++◌, length,
  length-append, arith, Bool, true, false, str_eq, if◌then◌else◌,
}
use cloud_multi_agent_manage.Platform.{Platform, ok}
use cloud_multi_agent_manage.Message.{EventEnvelope}
use cloud_multi_agent_manage.Exec.{World, now, pure, ◌>>=◌}
use cloud_multi_agent_manage.Forecast.Handlers.{maxlen, rest_of, append, observe, handle, worker}

module _ {A : Type 0} where
  abbrev pub drop : ℕ → List A → List A
  drop zero l = l
  drop (suc n) [] = []
  drop (suc n) (x ∷ l) = drop n l

  -- The last n elements, or all where there are fewer.
  abbrev pub last : ℕ → List A → List A
  last n l = drop (length l - n) l

  length-drop : (n : ℕ) (l : List A) → length (drop n l) ≡ length l - n
  length-drop zero l = omega arith
  length-drop (suc n) [] = omega arith
  length-drop (suc n) (x ∷ l) = omega (arith, length-drop n l)

  rest_of-drop : (n : ℕ) (l : List A) → rest_of (drop n l) ≡ drop (suc n) l
  rest_of-drop zero [] = refl
  rest_of-drop zero (x ∷ l) = refl
  rest_of-drop (suc n) [] = refl
  rest_of-drop (suc n) (x ∷ l) = rest_of-drop n l

  drop-append : (n : ℕ) (l r : List A) → n ≤ length l → drop n (l ++ r) ≡ drop n l ++ r
  drop-append zero l r h = refl
  drop-append (suc n) [] r h = absurd (omega arith)
  drop-append (suc n) (x ∷ l) r h = drop-append n l r (omega arith)

  last_short : (n : ℕ) (l : List A) → length l ≤ n → last n l ≡ l
  last_short n l h = let z : length l - n ≡ 0 = omega arith in rw z refl

  append-room : (n : ℕ) (x : A) (w : List A) → length w < n → append n x w ≡ w ++ (x ∷ [])
  unfolding append
  append-room n x w h = ground arith

  append-full : (n : ℕ) (x : A) (w : List A) → n ≤ length w → append n x w ≡ rest_of w ++ (x ∷ [])
  unfolding append
  append-full n x w h = ground arith

  -- A bounded append on the last elements of a list gives the last elements of the longer list.
  pub append-last :
      (n : ℕ) (x : A) (h : List A) → 0 < n → append n x (last n h) ≡ last n (h ++ (x ∷ []))
  append-last n x h pos =
      let longer = length-append h (x ∷ []) in
      elim (dec_lt (length h) n) [
        | yes room ↦
            ap (append n x) (last_short n h (omega arith))
            ∙ append-room n x h room
            ∙ sym (last_short n (h ++ (x ∷ [])) (omega (arith, longer)))
        | no full ↦
            let k = length h - n in
            let size : length (last n h) ≡ length h - k = length-drop k h in
            let more : length (h ++ (x ∷ [])) - n ≡ suc k = omega (arith, longer) in
            append-full n x (last n h) (omega (arith, size))
            ∙ ap (λ l. l ++ (x ∷ [])) (rest_of-drop k h)
            ∙ sym (drop-append (suc k) h (x ∷ []) (omega arith))
            ∙ ap (λ m. drop m (h ++ (x ∷ []))) (sym more)
      ]

  length-last : (n : ℕ) (l : List A) → length (last n l) ≤ n
  length-last n l = omega (arith, length-drop (length l - n) l)

module _ ⦃p : Platform⦄ where
  open p use {F}

  -- All arrivals, with that of an event at the time that the clock reads.
  abbrev pub with_arrival : Bool → List F → World → List F
  with_arrival true h w = h ++ (p.time_at w.readings ∷ [])
  with_arrival false h w = h

  abbrev pub arrived : EventEnvelope F → List F → World → List F
  arrived e h w = with_arrival (str_eq e.event_type "request.classified") h w

  observe-step :
      (b : Bool) (h : List F) (w : World)
      → ((if b then (now >>= λ t. pure (append maxlen t (last maxlen h))) else pure (last maxlen h))
          w).0
        ≡ ok (last maxlen (with_arrival b h w))
  observe-step true h w = ap ok (append-last maxlen (p.time_at w.readings) h (omega arith))
  observe-step false h w = refl

  observe-last :
      (e : EventEnvelope F) (h : List F) (w : World)
      → (observe e (last maxlen h) w).0 ≡ ok (last maxlen (arrived e h w))
  unfolding observe
  observe-last e h w = observe-step (str_eq e.event_type "request.classified") h w

  handle-last :
      (e : EventEnvelope F) (h : List F) (w : World)
      → (handle e (last maxlen h) w).1 ≡ last maxlen (arrived e h w)
  unfolding handle
  handle-last e h w = rw (observe-last e h w) refl

  -- Every arrival so far, after the messages of a run of the worker.
  unfoldable pub history : (World → World) → List (EventEnvelope F) → List F → World → List F
  history others [] h w = h
  history others (e ∷ es) h w =
      let v = others w in history others es (arrived e h v) (handle e (last maxlen h) v).2

  -- The window of the worker is the last twenty of all arrivals, whatever the messages are, whether
  -- they are handled or fail, and whatever other services do between them.
  pub worker-history :
      (others : World → World) (es : List (EventEnvelope F)) (h : List F) (w : World)
      → (worker others es (last maxlen h) w).0 ≡ last maxlen (history others es h w)
  unfolding worker history
  worker-history others [] h w = refl
  worker-history others (e ∷ es) h w =
      let v = others w in
      let v' = (handle e (last maxlen h) v).2 in
      ap (λ l. (worker others es l v').0) (handle-last e h v)
      ∙ worker-history others es (arrived e h v) v'
