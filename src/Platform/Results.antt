-- ===== src/Platform/Results.antt =====
-- A chain of results that succeeded, taken apart.
use cloud_multi_agent_manage.Prelude.{◌≡◌, refl, Bool, true, false}
use cloud_multi_agent_manage.Platform.{Result, ok, err, ◌>>=◌}

module _ {A B : Type 0} (f : A → Result B) where
  -- The first result succeeded, and what follows succeeded on its value.
  pub >>=-ok : {b : B} (m : Result A) → (m >>= f) ≡ ok b → (a : A) × (f a ≡ ok b) × (m ≡ ok a)
  >>=-ok (err x) h = cc
  >>=-ok (ok a) h = (a, h, refl)

abbrev pub is_ok : {A : Type 0} → Result A → Bool
is_ok (ok a) = true
is_ok (err x) = false
