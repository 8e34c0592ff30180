-- ===== src/ScaleAgent/Removed.antt =====
-- services/scale_agent/main.py: what a scale-in removes.
use cloud_multi_agent_manage.Prelude.{String, ◌≡◌, true, none, some, List, In, ◌⊎◌, Option}
use cloud_multi_agent_manage.Prelude.Int.{pos}
use cloud_multi_agent_manage.Value.{Payload, Hash, int, null, get_or, of_hash, insert, str}
use cloud_multi_agent_manage.Key.{Key, running, auto_nodes}
use cloud_multi_agent_manage.Platform.{Platform, Result, ok, err}
use cloud_multi_agent_manage.Python.{float_of, text_of, is_zero}
use cloud_multi_agent_manage.Exec.{World, Exec, pure}
use cloud_multi_agent_manage.ScaleAgent.Handlers.{find_idle, blocked, remove_node}

module _ ⦃p : Platform⦄ where
  open p use {F}

  -- The number in a field of a hash is zero.
  abbrev IsZero : Result F → Type 0
  IsZero (ok x) = is_zero x ≡ true
  IsZero (err e) = ⊥

  -- A node's hash, whose identifier names a set of running tasks that is empty, and whose used CPU and
  -- memory are zero.
  abbrev pub IsIdle : Hash → World → Type 0
  IsIdle h w =
      let t = of_hash {F = F} h in
      (p.redis_scard (running (text_of (get_or "node_id" null t))) w.redis ≡ ok 0)
      × IsZero (float_of (get_or "cpu_used" (int (pos 0)) t))
      × IsZero (float_of (get_or "ram_used_mb" (int (pos 0)) t))

  -- The loop of `find_idle`, when a candidate has been looked at.
  abbrev search_on : Key → List Key → Option String → Exec (Option (Key × String))
  search_on j ks found = elim found [ none ↦ find_idle ks | some n ↦ pure (some (j, n)) ]

  -- The node behind a key is one of the candidates, and idle.
  abbrev IsFound : List Key → Key → World → Type 0
  IsFound ks k w = In k ks × (h : Hash) × (p.redis_hgetall k w.redis ≡ ok h) × IsIdle h w

  -- What `scale_in` leaves of Redis: all of it, or all but the key of one idle node that is among the
  -- nodes that were added by a scale-out.
  abbrev pub Removes : World → World → Type 0
  Removes w v =
      (v.redis ≡ w.redis)
      ⊎ ((k : Key) × IsFound (p.redis_keys auto_nodes w.redis) k w
          × (v.redis ≡ p.redis_delete k w.redis))

  abbrev Deletes : Key → World → World → Type 0
  Deletes k w v = (v.redis ≡ w.redis) ⊎ (v.redis ≡ p.redis_delete k w.redis)

  -- The end of `scale_in`.
  abbrev ended : String → Payload F → Option (Key × String) → Exec (Unit {0})
  ended cid d found = elim found [
    | none ↦ blocked cid (insert "action" (str "scale-in") d) "no_safe_auto_nodes"
    | some (k, node_id) ↦ remove_node cid d k node_id
  ]
