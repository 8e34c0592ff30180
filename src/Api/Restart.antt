-- ===== src/Api/Restart.antt =====
-- What a node failure does to the critical tasks that run on the node.
use cloud_multi_agent_manage.Prelude.{String, ◌≡◌, some, [], ◌∷◌, arith, eq_refl}
use cloud_multi_agent_manage.Value.{Hash, hash_update, of_hash, lookup, str}
use cloud_multi_agent_manage.Key.{task}
use cloud_multi_agent_manage.Platform.{Platform, ok}
use cloud_multi_agent_manage.Platform.Laws.{IsRedis, hash}
use cloud_multi_agent_manage.Exec.{World}
use cloud_multi_agent_manage.Api.Handlers.{fail_running_task}

module _ ⦃p : Platform⦄ (laws : IsRedis) where
  open p use {F}
  open laws use {view, write, hgetall_lem, hset_lem, view-write_self, view-write_ne}

  -- A task that runs on the node that fails, a critical one too, is marked failed and changed in nothing
  -- else: no message is published, so it is not queued again.
  pub fail_running_task-running :
      (node_id task_id : String) (h : Hash) (w : World)
      → view (task task_id) w.redis ≡ hash h
      → lookup {F = F} "node_id" (of_hash h) ≡ some (str node_id)
      → lookup {F = F} "status" (of_hash h) ≡ some (str "running")
      → fail_running_task node_id task_id w ≡ (
        ok tt,
        record w {
          redis =
              write
                (task task_id)
                (hash (hash_update h (("status", "failed") ∷ ("error", "node_failure") ∷ [])))
                w.redis;
        },
      )
  unfolding fail_running_task
  fail_running_task-running node_id task_id h w v n s = ground (
    arith,
    hgetall_lem (task task_id) w.redis,
    hset_lem (task task_id) (("status", "failed") ∷ ("error", "node_failure") ∷ []) w.redis,
    eq_refl node_id,
  )
