-- ===== src/Experiments/Metrics.antt =====
-- scripts/run_experiments.py: `percentile`, `node_metrics` and the polling of `wait_for_completion`.
-- `fmean` of Python's statistics is an argument, and so are the answers of the API.
use cloud_multi_agent_manage.Prelude.{
  ℕ, zero, suc, ◌-◌, String, Option, none, some, List, [], ◌∷◌, ◌++◌, ◌||◌, length, leb, map,
  str_eq, if◌then◌else◌,
}
use cloud_multi_agent_manage.Prelude.Int.{ℤ, pos, negsuc, min_ℤ}
use cloud_multi_agent_manage.Value.{Payload, int, get_or}
use cloud_multi_agent_manage.Platform.{Platform, Result, ok, err, value_error, index_error, ◌>>=◌}
use cloud_multi_agent_manage.Python.{float_of, truthy, or_error, true_divide}

-- `l[i]` for an index that is not negative, with `none` beyond the last.
unfoldable pub get_elem? : {A : Type 0} → List A → ℕ → Option A
get_elem? [] n = none
get_elem? (x ∷ l) zero = some x
get_elem? (x ∷ l) (suc n) = get_elem? l n

module _ ⦃p : Platform⦄ where
  open p use {F}

  -- `sorted(l)` by insertion: equal elements keep their order, as Python's sort does.
  unfoldable pub place : F → List F → List F
  place x [] = x ∷ []
  place x (y ∷ l) = let rest = place x l in if p.lt y x then y ∷ rest else x ∷ y ∷ l

  unfoldable pub sorted : List F → List F
  unfolding place
  sorted [] = []
  sorted (x ∷ l) = place x (sorted l)

  -- `ordered[index]`, where a negative index counts from the end.
  abbrev item_at : List F → ℤ → Result F
  item_at l (pos n) = or_error (get_elem? l n) index_error
  item_at l (negsuc n) =
      if leb (suc n) (length l)
      then or_error (get_elem? l (length l - suc n)) index_error
      else err index_error

  -- `int(round((pct / 100) * (len(ordered) - 1)))`
  abbrev pub rank : ℕ → ℕ → Option ℤ
  rank pct n =
      p.round_int
        (p.times (p.divide (p.of_int (pos pct)) (p.of_int (pos 100))) (p.of_int (pos (n - 1))))

  unfoldable pub percentile : List F → ℕ → Result F
  percentile [] pct = ok (p.lit 0 1)
  percentile (x ∷ l) pct = do
    let ordered = sorted (x ∷ l)
    r ← or_error (rank pct (length ordered)) value_error
    item_at ordered (min_ℤ (pos (length ordered - 1)) r)

  -- `abs(x)`
  abbrev abs_F : F → F
  abs_F x = if p.lt x (p.lit 0 0) then p.subtract (p.lit 0 0) x else x

  -- `float(node.get(k, 0) or 0)`
  abbrev number_or_zero : String → Payload F → Result F
  number_or_zero k d =
      let v = get_or k (int (pos 0)) d in float_of (if truthy v then v else int (pos 0))

  -- The two numbers that a node adds to the lists, or none where it has no size.
  unfoldable pub node_load : Payload F → Result (Option (F × F))
  node_load d = do
    cpu_total ← number_or_zero "cpu_total" d
    ram_total ← number_or_zero "ram_total_mb" d
    if p.le cpu_total (p.of_int (pos 0)) || p.le ram_total (p.of_int (pos 0)) then ok none else do
      cpu_used ← number_or_zero "cpu_used" d
      cpu_util ← true_divide cpu_used cpu_total
      ram_used ← number_or_zero "ram_used_mb" d
      ram_util ← true_divide ram_used ram_total
      ok (some (cpu_util, abs_F (p.subtract cpu_util ram_util)))

  abbrev with_load : Option (F × F) → List (F × F) → List (F × F)
  with_load none l = l
  with_load (some x) l = x ∷ l

  unfoldable pub node_loads : List (Payload F) → Result (List (F × F))
  unfolding node_load
  node_loads [] = ok []
  node_loads (d ∷ ds) = node_load d >>= λ x. node_loads ds >>= λ rest. ok (with_load x rest)

  abbrev mean_or_zero : (List F → F) → List F → F
  mean_or_zero fmean [] = p.lit 0 1
  mean_or_zero fmean (x ∷ l) = fmean (x ∷ l)

  -- average_cpu_utilization and resource_imbalance_index, with `fmean` of the library.
  unfoldable pub node_metrics : (List F → F) → List (Payload F) → Result (F × F)
  unfolding node_loads
  node_metrics fmean nodes = node_loads nodes >>= λ loads.
      ok (mean_or_zero fmean (map (λ x. x.0) loads), mean_or_zero fmean (map (λ x. x.1) loads))

-- One pass over the unfinished tasks: what the API answers for each, or nothing for another code than
-- 200. The finished tasks with their status, and those that stay.
unfoldable pub poll : (String → Option String) → List String → List (String × String) × List String
poll status_of [] = ([], [])
poll status_of (t ∷ ts) =
    let (finished, unfinished) = poll status_of ts in
    elim (status_of t) [
      | none ↦ (finished, t ∷ unfinished)
      | some s ↦
          if str_eq s "done" || str_eq s "failed"
          then ((t, s) ∷ finished, unfinished)
          else (finished, t ∷ unfinished)
    ]

-- The passes until no task is left or the time is over: `answers i` is what the API says in pass i.
unfoldable pub wait_for_completion :
    (ℕ → String → Option String) → ℕ → List String → List (String × String) × List String
unfolding poll
wait_for_completion answers zero unfinished = ([], unfinished)
wait_for_completion answers (suc passes) [] = ([], [])
wait_for_completion answers (suc passes) (t ∷ ts) =
    let (finished, rest) = poll (answers passes) (t ∷ ts) in
    let (later, left) = wait_for_completion answers passes rest in (finished ++ later, left)
