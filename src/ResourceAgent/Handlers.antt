-- ===== src/ResourceAgent/Handlers.antt =====
-- services/resource_agent/main.py: `iter_node_hashes`, `handle_need_placement` and `worker`.
use cloud_multi_agent_manage.Prelude.{
  ℕ, suc, String, Bool, true, false, Option, none, some, List, [], ◌∷◌, ◌&&◌, str_eq, ◌==◌,
  if◌then◌else◌,
}
use cloud_multi_agent_manage.Prelude.Int.{pos}
use cloud_multi_agent_manage.Value.{
  Payload, Hash, null, int, float, str, bool, field, empty, lookup, get_or, merge, of_hash,
}
use cloud_multi_agent_manage.Key.{Key, node, nodes}
use cloud_multi_agent_manage.Platform.{Platform, Result, ok, err, ◌>>=◌}
use cloud_multi_agent_manage.Message.{EventEnvelope}
use cloud_multi_agent_manage.Python.{float_of, item, true_divide}
use cloud_multi_agent_manage.Runtime.{announce}
use cloud_multi_agent_manage.Exec
use cloud_multi_agent_manage.Exec.{World, Exec, pure, lift, gets, query, command}
use cloud_multi_agent_manage.ResourceAgent.Score.{Score, score_node, score_fields, number}

module _ ⦃p : Platform⦄ where
  open p use {F, Store}

  abbrev has : String → Payload F → Bool
  has k h = elim (lookup k h) [ none ↦ false | some v ↦ true ]

  abbrev complete_hash : Result Hash → Option (Payload F)
  complete_hash (ok h) =
      let t = of_hash {F = F} h in
      if has "cpu_total" t && has "ram_total_mb" t && has "node_id" t then some t else none
  complete_hash (err x) = none

  -- One key of `iter_node_hashes`: what is no hash, cannot be read or is incomplete is skipped.
  unfoldable pub node_hash : Key → Store → Option (Payload F)
  node_hash k s =
      if str_eq (p.redis_type k s) "hash" then complete_hash (p.redis_hgetall k s) else none

  -- The gauges are not modelled; what stays is that the two divisions may fail.
  abbrev utilization : Payload F → String → String → Result F
  utilization h used total =
      float_of (get_or used (int (pos 0)) h) >>= λ a. number total h >>= λ b. true_divide a b

  unfoldable pub propose : Payload F → Payload F → Result (Option Score)
  unfolding score_node
  propose h t = utilization h "cpu_used" "cpu_total" >>= λ _.
      utilization h "ram_used_mb" "ram_total_mb" >>= λ _. score_node h t

  abbrev pub proposal_payload : Payload F → Score → Payload F
  proposal_payload t s =
      merge (merge t (score_fields s))
        (field "unsafe" (bool false) (field "resource_unsafe" (bool false) empty))

  abbrev pub no_node_payload : Payload F → Payload F
  no_node_payload t = merge t (
      field "node_id" null (
        field "fit_score" (float (p.lit 0 1)) (
          field "unsafe" (bool true) (
            field "resource_unsafe" (bool true) (field "reason" (str "no suitable nodes") empty)))))

  -- The loop over the keys, with the number of proposals made. A node that cannot be scored is
  -- skipped with a log entry, and None proposes nothing.
  unfoldable pub propose_nodes : EventEnvelope F → List Key → ℕ → Exec ℕ
  propose_nodes e [] made w = pure made w
  propose_nodes e (k ∷ ks) made w = elim (node_hash k w.redis) [
    | none ↦ propose_nodes e ks made w
    | some h ↦ elim (propose h e.payload) [
      | ok (some s) ↦
          Exec.◌>>=◌
            (announce "node_proposal_fit" "node.proposal.fit" e.correlation_id "resource-agent"
              (proposal_payload e.payload s))
            (λ _. propose_nodes e ks (suc made)) w
      | ok none ↦ propose_nodes e ks made w
      | err x ↦ propose_nodes e ks made w
    ]
  ]

  unfoldable pub handle_need_placement : EventEnvelope F → Exec ℕ
  unfolding propose_nodes announce
  handle_need_placement e = Exec.◌>>=◌ (gets (λ w. p.redis_keys nodes w.redis)) λ ks.
      Exec.◌>>=◌ (propose_nodes e ks 0) λ made.
        Exec.◌>>=◌
          (Exec.when (made == 0) (
            announce "node_proposal_fit" "node.proposal.fit" e.correlation_id "resource-agent"
              (no_node_payload e.payload)))
          λ _. pure made

  unfoldable pub handle : EventEnvelope F → Exec (Unit {0})
  handle e =
      if str_eq e.event_type "node.unavailable"
      then Exec.◌>>=◌ (lift (item "node_id" e.payload))
          (λ node_id. command (p.redis_hset (node node_id) (("status", "failed") ∷ [])))
      else Exec.◌>>=◌ (handle_need_placement e) λ _. pure tt
