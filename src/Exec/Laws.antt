-- ===== src/Exec/Laws.antt =====
-- How a successful run of a block passes through its steps.
use cloud_multi_agent_manage.Prelude.{◌≡◌, ◌∙◌, refl, Bool, true, false}
use cloud_multi_agent_manage.Platform.{Platform, Result, ok, err}
use cloud_multi_agent_manage.Exec.{World, Exec, continue, when, ◌>>=◌}

module _ ⦃p : Platform⦄ {A B : Type 0} where
  continue-ok :
      (r : Result A) (f : A → Exec B) (w : World) {b : B} {v : World}
      → continue r f w ≡ (ok b, v)
      → (a : A) × (r ≡ ok a) × (f a w ≡ (ok b, v))
  continue-ok (ok a) f w h = (a, refl, h)
  continue-ok (err x) f w h = cc

  -- The first step returned, and the rest ran from the world that it left.
  pub bind-ok :
      (m : Exec A) (f : A → Exec B) (w : World) {b : B} {v : World}
      → (m >>= f) w ≡ (ok b, v)
      → (a : A) × (u : World) × (m w ≡ (ok a, u)) × (f a u ≡ (ok b, v))
  bind-ok m f w h =
      let (a, e, rest) = continue-ok (m w).0 f (m w).1 h in (a, (m w).1, λ i. (e i, (m w).1), rest)

module _ ⦃p : Platform⦄ {A B : Type 0} where
  redis-continue :
      (r : Result A) (f : A → Exec B) (w : World)
      → ((a : A) (u : World) → (f a u).1.redis ≡ u.redis)
      → (continue r f w).1.redis ≡ w.redis
  redis-continue (ok a) f w h = h a w
  redis-continue (err x) f w h = refl

  -- A block of steps that leave Redis as it is leaves it as it is, wherever the block ends.
  pub redis-bind :
      (m : Exec A) (f : A → Exec B) (w : World)
      → ((u : World) → (m u).1.redis ≡ u.redis)
      → ((a : A) (u : World) → (f a u).1.redis ≡ u.redis)
      → ((m >>= f) w).1.redis ≡ w.redis
  redis-bind m f w hm hf = redis-continue (m w).0 f (m w).1 hf ∙ hm w

module _ ⦃p : Platform⦄ where
  pub redis-when :
      (b : Bool) (m : Exec (Unit {0})) (w : World)
      → (m w).1.redis ≡ w.redis
      → (when b m w).1.redis ≡ w.redis
  redis-when false m w h = refl
  redis-when true m w h = h
