-- ===== src/Coordinator/Degrade.antt =====
-- services/coordinator_agent/main.py: the loop body of `degrade_proposals`, on one node's hash.
use cloud_multi_agent_manage.Prelude.{
  String, Bool, true, false, not, Option, none, some, ◌&&◌, ◌||◌, if◌then◌else◌,
}
use cloud_multi_agent_manage.Prelude.Int.{pos}
use cloud_multi_agent_manage.Value.{
  Payload, Hash, int, float, bool, field, empty, lookup, get_or, merge, of_hash,
}
use cloud_multi_agent_manage.Platform.{Platform, Result, ok, err, key_error, ◌>>=◌}
use cloud_multi_agent_manage.Python.{float_of, is_text, is_true, true_divide}

module _ ⦃p : Platform⦄ where
  open p use {F}

  -- A field of a hash that must be there, as a float.
  abbrev number : String → Hash → Result F
  number k h = elim (lookup k (of_hash {F = F} h)) [
    | none ↦ err (key_error k)
    | some v ↦ float_of v
  ]

  abbrev degraded_proposal : Payload F → Hash → F → F → F → F → Result (Option (Payload F))
  degraded_proposal t h cpu_free cpu_total ram_free ram_total = do
    cpu_share ← true_divide cpu_free cpu_total
    ram_share ← true_divide ram_free ram_total
    node_id ← (elim (lookup "node_id" (of_hash {F = F} h)) [
      | none ↦ err (key_error "node_id")
      | some v ↦ ok v
    ])
    ok (
        some (
          merge t (
            field "node_id" node_id (
              field "fit_score"
                (float (p.round4 (p.divide (p.add cpu_share ram_share) (p.of_int (pos 2)))))
                (field "balance_score" (float (p.lit 5 1))
                  (field "cost" (float (p.lit 2 1)) (field "degraded" (bool true) empty)))))))

  abbrev is_skipped : Hash → Bool
  is_skipped h =
      is_text "failed" (lookup "status" (of_hash {F = F} h))
      || elim (lookup "cpu_total" (of_hash {F = F} h)) [ none ↦ true | some v ↦ false ]

  -- The body of the loop; `none` is `continue`. An empty hash has no cpu_total.
  unfoldable pub degrade_node : Payload F → Hash → Result (Option (Payload F))
  degrade_node t h = if is_skipped h then ok none else do
    cpu_total ← number "cpu_total" h
    cpu_used ← float_of (get_or "cpu_used" (int (pos 0)) (of_hash {F = F} h))
    ram_total ← number "ram_total_mb" h
    ram_used ← float_of (get_or "ram_used_mb" (int (pos 0)) (of_hash {F = F} h))
    let cpu_free = p.subtract cpu_total cpu_used
    let ram_free = p.subtract ram_total ram_used
    if is_true (lookup "requires_gpu" t) && not (is_text "true" (lookup "gpu" (of_hash {F = F} h)))
        then ok none
        else do
          cpu_required ← float_of (get_or "cpu_required" (int (pos 1)) t)
          if p.lt cpu_free cpu_required then ok none else do
            ram_required ← float_of (get_or "ram_required_mb" (int (pos 512)) t)
            if p.lt ram_free ram_required
                then ok none
                else degraded_proposal t h cpu_free cpu_total ram_free ram_total
