-- ===== src/Coordinator/NodeKeys.antt =====
-- The pattern `node:*` takes the sets `node:{id}:running` too.
use cloud_multi_agent_manage.Prelude.{◌≡◌, refl, inl, inr, false, String, List, [], ◌∷◌, arith, In}
use cloud_multi_agent_manage.Value.{Payload}
use cloud_multi_agent_manage.Key.{Key, running, nodes, matches}
use cloud_multi_agent_manage.Platform.{Platform}
use cloud_multi_agent_manage.Platform.Laws.{IsRedis, set}
use cloud_multi_agent_manage.Platform.Results.{is_ok}
use cloud_multi_agent_manage.Exec.{World}
use cloud_multi_agent_manage.Coordinator.Proposals.{degrade_nodes, degrade_proposals}

module _ ⦃p : Platform⦄ (laws : IsRedis) where
  open p use {F}
  open laws use {view, hgetall_lem, keys-In}

  degrade_nodes-err :
      (t : Payload F) (n m : String) (l : List String) (ks : List Key) (w : World)
      → view (running n) w.redis ≡ set (m ∷ l)
      → In (running n) ks
      → is_ok (degrade_nodes t ks w).0 ≡ false
  unfolding degrade_nodes
  degrade_nodes-err t n m l [] w v i = absurd i
  degrade_nodes-err t n m l (k ∷ ks) w v (inl here) =
      ground (arith, hgetall_lem (running n) w.redis)
  degrade_nodes-err t n m l (k ∷ ks) w v (inr later) =
      ground (arith, degrade_nodes-err t n m l ks w v later)

  -- While a task runs on any node, so that its set of running tasks is there, the coordinator's own
  -- proposals fail: `node:*` gives the key of the set, and HGETALL on a set is refused.
  pub degrade_proposals-err :
      (t : Payload F) (n m : String) (l : List String) (w : World)
      → view (running n) w.redis ≡ set (m ∷ l)
      → is_ok (degrade_proposals t w).0 ≡ false
  unfolding degrade_proposals matches
  degrade_proposals-err t n m l w v =
      degrade_nodes-err t n m l (p.redis_keys nodes w.redis) w v
        (keys-In nodes (running n) w.redis refl (λ e. cc))
