-- ===== src/Coordinator/Proposals.antt =====
-- services/coordinator_agent/main.py: the payloads it keeps in Redis, the proposals it loads, and
-- those that it makes itself when there are none.
use cloud_multi_agent_manage.Prelude.{
  String, Bool, not, Option, none, some, List, [], ◌∷◌, ◌&&◌, str_eq, if◌then◌else◌,
}
use cloud_multi_agent_manage.Value.{Value, Payload, dict, lookup}
use cloud_multi_agent_manage.Key.{Key, proposals, nodes}
use cloud_multi_agent_manage.Platform.{Platform, Result, ok, err, attribute_error, value_error}
use cloud_multi_agent_manage.Python.{is_true}
use cloud_multi_agent_manage.Coordinator.Degrade.{degrade_node}
use cloud_multi_agent_manage.Exec.{Exec, pure, lift, gets, query, ◌>>=◌, overwrite}

module _ ⦃p : Platform⦄ where
  open p use {F}

  -- The time to live of the key is not modelled.
  unfoldable pub save_payload : Key → Payload F → Exec (Unit {0})
  save_payload k d = overwrite (p.redis_set k (p.dumps d))

  abbrev pub dict_of : Option (Value F) → Result (Payload F)
  dict_of none = err value_error
  dict_of (some (dict d)) = ok d
  dict_of (some v) = err attribute_error

  -- `json.loads(raw) if raw else None`
  abbrev pub parse_payload : Option String → Result (Option (Payload F))
  parse_payload none = ok none
  parse_payload (some raw) =
      if str_eq raw ""
      then ok none
      else elim (dict_of (p.loads raw)) [ ok d ↦ ok (some d) | err x ↦ err x ]

  unfoldable pub load_payload : Key → Exec (Option (Payload F))
  load_payload k = do raw ← query (p.redis_get k); lift (parse_payload raw)

  abbrev pub prepend : Option (Payload F) → List (Payload F) → List (Payload F)
  prepend none ds = ds
  prepend (some d) ds = d ∷ ds

  load_all : List Key → Exec (List (Payload F))
  unfolding load_payload
  load_all [] = pure []
  load_all (k ∷ ks) = do d ← load_payload k; ds ← load_all ks; pure (prepend d ds)

  unfoldable pub load_proposals : String → Exec (List (Payload F))
  unfolding load_all
  load_proposals task_id = do
    proposal_keys ← gets (λ w. p.redis_keys (proposals task_id) w.redis)
    load_all proposal_keys

  unfoldable pub degrade_nodes : Payload F → List Key → Exec (List (Payload F))
  degrade_nodes t [] = pure []
  degrade_nodes t (k ∷ ks) = do
    h ← query (p.redis_hgetall k)
    d ← lift (degrade_node t h)
    ds ← degrade_nodes t ks
    pure (prepend d ds)

  unfoldable pub degrade_proposals : Payload F → Exec (List (Payload F))
  unfolding degrade_nodes
  degrade_proposals t = do
    node_keys ← gets (λ w. p.redis_keys nodes w.redis)
    degrade_nodes t node_keys

  -- `proposal.get("node_id") and not proposal.get("resource_unsafe", False)`
  unfoldable pub is_safe : Payload F → Bool
  is_safe d = is_true (lookup "node_id" d) && not (is_true (lookup "resource_unsafe" d))
