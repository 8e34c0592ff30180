-- ===== src/Coordinator/Ranking.antt =====
-- Python's `sorted(items, key=…, reverse=True)`: in falling order, equal keys as they stood.
use cloud_multi_agent_manage.Prelude.{Bool, List, [], ◌∷◌, if◌then◌else◌}

module _ {ℓ} {K A : Type ℓ} (lt : K → K → Bool) where
  unfoldable pub place : K × A → List (K × A) → List (K × A)
  place x [] = x ∷ []
  place x (y ∷ ys) = let rest = place x ys in if lt x.0 y.0 then y ∷ rest else x ∷ y ∷ ys

  unfoldable pub sorted_reverse : List (K × A) → List (K × A)
  unfolding place
  sorted_reverse [] = []
  sorted_reverse (x ∷ xs) = place x (sorted_reverse xs)
