-- ===== src/ResourceAgent/Nodes.antt =====
-- services/resource_agent/main.py: `initialize_nodes`, the hashes of the configured nodes.
use cloud_multi_agent_manage.Prelude.{String, none, some, [], ◌∷◌, str_eq, if◌then◌else◌}
use cloud_multi_agent_manage.Prelude.Int.{ℤ, pos}
use cloud_multi_agent_manage.Value.{
  Value, Items, Payload, Hash, int, float, str, list, dict, nil, cons, empty, lookup, get_or,
  hash_lookup,
}
use cloud_multi_agent_manage.Key.{Key, node}
use cloud_multi_agent_manage.Platform.{
  Platform, Result, ok, err, key_error, type_error, attribute_error, data_error, ◌>>=◌,
}
use cloud_multi_agent_manage.Python.{int_of, text_of, get_nested}
use cloud_multi_agent_manage.Exec
use cloud_multi_agent_manage.Exec.{Exec, pure, lift, gets, ◌>>◌, query, command, overwrite}

module _ ⦃p : Platform⦄ where
  open p use {F, Store}

  -- `node[k]`
  abbrev pub item : String → Payload F → Result (Value F)
  item k d = elim (lookup k d) [ none ↦ err (key_error k) | some v ↦ ok v ]

  -- What the client writes for a value of a mapping.
  abbrev pub encode : Value F → Result String
  encode (str t) = ok t
  encode (int z) = ok (p.show_int z)
  encode (float x) = ok (p.show_float x)
  encode _ = err data_error

  -- `node.get("labels", {}).get(k, default)`
  abbrev pub label_of : Value F → String → String → Result (Value F)
  label_of (dict labels) k fallback = ok (get_or k (str fallback) labels)
  label_of _ k fallback = err attribute_error

  abbrev pub kept : String → String → Hash → String
  kept k fallback existing = elim (hash_lookup k existing) [ none ↦ fallback | some t ↦ t ]

  -- The mapping that is written, from the hash that was there.
  unfoldable pub node_mapping : Payload F → Hash → Result Hash
  node_mapping d existing = do
    node_id ← item "id" d
    cpu_total ← item "cpu_total" d
    ram_total ← item "ram_total_mb" d
    gpu ← label_of (get_or "labels" (dict empty) d) "gpu" "false"
    zone ← label_of (get_or "labels" (dict empty) d) "zone" "unknown"
    id_text ← encode node_id
    gpu_text ← encode gpu
    zone_text ← encode zone
    ok (
        ("node_id", id_text)
        ∷ ("status", kept "status" "ready" existing)
        ∷ ("cpu_total", text_of cpu_total)
        ∷ ("ram_total_mb", text_of ram_total)
        ∷ ("cpu_used", kept "cpu_used" "0" existing)
        ∷ ("ram_used_mb", kept "ram_used_mb" "0" existing)
        ∷ ("gpu", gpu_text)
        ∷ ("zone", zone_text)
        ∷ [])

  abbrev hash_or_none : Result Hash → Hash
  hash_or_none (ok h) = h
  hash_or_none (err x) = []

  -- The hash that is there; a key that holds something else, or cannot be read, counts as empty.
  unfoldable pub existing_hash : Key → Store → Hash
  existing_hash k s =
      if str_eq (p.redis_type k s) "hash" then hash_or_none (p.redis_hgetall k s) else []

  -- The body of the loop.
  abbrev node_dict : Value F → Result (Payload F)
  node_dict (dict d) = ok d
  node_dict _ = err type_error

  unfoldable pub initialize_node : ℤ → Value F → Exec (Unit {0})
  unfolding existing_hash
  initialize_node ttl v = Exec.◌>>=◌ (lift (node_dict v)) λ d.
      Exec.◌>>=◌ (lift (item "id" d)) λ node_id.
        let key = node (text_of node_id) in
        Exec.◌>>=◌ (query (λ s. ok (existing_hash key s))) λ existing.
          Exec.◌>>=◌ (lift (node_mapping d existing))
            λ mapping. command (p.redis_hset key mapping) >> overwrite (p.redis_expire key ttl)

  unfoldable pub initialize_all : ℤ → Items F → Exec (Unit {0})
  unfolding initialize_node
  initialize_all ttl nil = pure tt
  initialize_all ttl (cons v vs) = initialize_node ttl v >> initialize_all ttl vs

  -- `for node in nodes`; the keys of a dict and the letters of a text are no nodes.
  abbrev pub items_of : Value F → Result (Items F)
  items_of (list l) = ok l
  items_of (dict empty) = ok nil
  items_of (str t) = if str_eq t "" then ok nil else err type_error
  items_of _ = err type_error

  unfoldable pub initialize_nodes : Exec (Unit {0})
  unfolding initialize_all
  initialize_nodes = Exec.◌>>=◌ (gets (λ w. w.config)) λ config.
      Exec.◌>>=◌
        (lift (int_of (get_nested config ("redis" ∷ "runtime_ttl_seconds" ∷ []) (int (pos 3600)))))
        λ ttl.
          Exec.◌>>=◌
            (lift (items_of (get_nested config ("agents" ∷ "resource" ∷ "nodes" ∷ []) (list nil))))
            λ nodes. initialize_all ttl nodes
