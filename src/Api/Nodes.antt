-- ===== src/Api/Nodes.antt =====
-- services/api_service/main.py: the keys that `list_nodes` reads.
use cloud_multi_agent_manage.Prelude.{◌≡◌, refl, inl, inr, false, String, List, [], ◌∷◌, arith, In}
use cloud_multi_agent_manage.Key.{Key, running, nodes, matches}
use cloud_multi_agent_manage.Platform.{Platform}
use cloud_multi_agent_manage.Platform.Laws.{IsRedis, set}
use cloud_multi_agent_manage.Platform.Results.{is_ok}
use cloud_multi_agent_manage.Exec.{World}
use cloud_multi_agent_manage.Api.Tasks.{read_nodes, list_nodes}

module _ ⦃p : Platform⦄ (laws : IsRedis) where
  open laws use {view, hgetall_lem, keys-In}

  read_nodes-err :
      (n m : String) (l : List String) (ks : List Key) (w : World)
      → view (running n) w.redis ≡ set (m ∷ l)
      → In (running n) ks
      → is_ok (read_nodes ks w).0 ≡ false
  unfolding read_nodes
  read_nodes-err n m l [] w v i = absurd i
  read_nodes-err n m l (k ∷ ks) w v (inl here) = ground (arith, hgetall_lem (running n) w.redis)
  read_nodes-err n m l (k ∷ ks) w v (inr later) = ground (arith, read_nodes-err n m l ks w v later)

  -- While a task runs on any node, so that its set of running tasks is there, `list_nodes` fails:
  -- `node:*` gives the key of the set, and HGETALL on a set is refused.
  pub list_nodes-err :
      (n m : String) (l : List String) (w : World)
      → view (running n) w.redis ≡ set (m ∷ l)
      → is_ok (list_nodes w).0 ≡ false
  unfolding list_nodes matches
  list_nodes-err n m l w v =
      let h =
        read_nodes-err n m l (p.redis_keys nodes w.redis) w v
          (keys-In nodes (running n) w.redis refl (λ e. cc)) in
      ground arith
