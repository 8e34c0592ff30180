-- ===== src/ExecutorAgent/NodeFailed.antt =====
-- services/executor_agent/main.py: `fail_tasks_on_node`, for all the tasks of a node.
use cloud_multi_agent_manage.Prelude.{
  String, ◌≡◌, refl, sym, ap, ◌∙◌, subst, List, [], ◌∷◌, inl, inr, In,
}
use cloud_multi_agent_manage.Key.{task, running}
use cloud_multi_agent_manage.Platform.{Platform, ok}
use cloud_multi_agent_manage.Platform.Laws.{IsRedis, absent, set_or_absent, smembers_entry}
use cloud_multi_agent_manage.Runtime.Laws.{IsReady}
use cloud_multi_agent_manage.Exec.{World}
use cloud_multi_agent_manage.ExecutorAgent.Reserve.{fail_task, fail_tasks, fail_tasks_on_node}
use cloud_multi_agent_manage.ExecutorAgent.Failing.{IsReadable, IsFailed, fail_task-step}

smembers-set_or_absent :
    (F : Type 0) (l : List String) → smembers_entry {F = F} (set_or_absent l) ≡ ok l
smembers-set_or_absent F [] = refl
smembers-set_or_absent F (x ∷ l) = refl

module _ ⦃p : Platform⦄ (laws : IsRedis) where
  open p use {F, Store}
  open laws use {view, write, smembers_lem, delete_lem, view-write_self, view-write_ne}

  -- The loop goes through all its tasks, and every one of them is failed then.
  fail_tasks-IsFailed :
      (node_id reason cid : String) (l : List String) (w : World)
      → IsReady w
      → ((t : String) → In t l → IsReadable laws t w.redis)
      → let (r, v) = fail_tasks node_id reason cid l w in
        (r ≡ ok tt)
        × ((t : String) → In t l → IsFailed laws t v)
        × ((t : String) → IsFailed laws t w → IsFailed laws t v)
  unfolding fail_tasks
  fail_tasks-IsFailed node_id reason cid [] w ready readable = (refl, λ t m. absurd m, λ t f. f)
  fail_tasks-IsFailed node_id reason cid (x ∷ l) w ready readable =
      let (done, still, here, keep, kept) =
        fail_task-step laws node_id reason cid x w ready (readable x (inl refl)) in
      let v = (fail_task node_id reason cid x w).1 in
      let u = (fail_tasks node_id reason cid l v).1 in
      let (done', there, kept') =
        fail_tasks-IsFailed node_id reason cid l v still (λ t m. keep t (readable t (inr m))) in
      rw done (
        done',
        λ t m. elim m [
          | inl same ↦ subst (λ k. IsFailed laws k u) (sym same) (kept' x here)
          | inr rest ↦ there t rest
        ],
        λ t f. kept' t (kept t f),
      )

  -- Where the services are ready, the set of the tasks that run on a node is there or empty, and each
  -- of these tasks has a hash or no entry, `fail_tasks_on_node` succeeds: the set of the node is gone,
  -- and every task that was in it has a hash with the status "failed" in Redis, and in the database the
  -- same status, or no row.
  pub fail_tasks_on_node-IsFailed :
      (node_id reason cid : String) (l : List String) (w : World)
      → IsReady w
      → view (running node_id) w.redis ≡ set_or_absent l
      → ((t : String) → In t l → IsReadable laws t w.redis)
      → let (r, v) = fail_tasks_on_node node_id reason cid w in
        (r ≡ ok tt)
        × (view (running node_id) v.redis ≡ absent)
        × ((t : String) → In t l → IsFailed laws t v)
  unfolding fail_tasks_on_node
  fail_tasks_on_node-IsFailed node_id reason cid l w ready set readable =
      let members : p.redis_smembers (running node_id) w.redis ≡ ok l =
        smembers_lem (running node_id) w.redis
        ∙ ap smembers_entry set
        ∙ smembers-set_or_absent F l in
      let (done, failed, kept) = fail_tasks-IsFailed node_id reason cid l w ready readable in
      let v = (fail_tasks node_id reason cid l w).1 in
      let gone : p.redis_delete (running node_id) v.redis ≡ write (running node_id) absent v.redis =
        delete_lem (running node_id) v.redis in
      rw (members, done)
        (
          refl,
          ap (view (running node_id)) gone ∙ view-write_self (running node_id) absent v.redis,
          λ t m.
              let ((h, e, s), row) = failed t m in
              (
                (
                  h,
                  ap (view (task t)) gone
                      ∙ view-write_ne (task t) (running node_id) absent v.redis (λ k. cc)
                      ∙ e,
                  s,
                ),
                row,
              ),
        )
