-- ===== src/QueueAgent/Again.antt =====
-- A submitted task that the queue agent handles twice, as after a redelivery of its message.
use cloud_multi_agent_manage.Prelude.{
  ℕ, suc, ◌≡◌, refl, sym, ap, ◌∙◌, subst, String, List, [], ◌∷◌, arith, eq_refl,
}
use cloud_multi_agent_manage.Prelude.Int.{ℤ}
use cloud_multi_agent_manage.Value.{Hash, float, hash_update}
use cloud_multi_agent_manage.Key.{task, waiting, class_queue}
use cloud_multi_agent_manage.Platform.{Platform, ok}
use cloud_multi_agent_manage.Platform.Laws.{IsRedis, hash, zset, zset_or_absent, score_insert}
use cloud_multi_agent_manage.Message.{TaskCreate}
use cloud_multi_agent_manage.Python.{get_nested, float_of}
use cloud_multi_agent_manage.Runtime.Laws.{IsReady}
use cloud_multi_agent_manage.Exec.{World}
use cloud_multi_agent_manage.ExecutorAgent.Dequeue.{entered}
use cloud_multi_agent_manage.QueueAgent.Priority.{capped_priority}
use cloud_multi_agent_manage.QueueAgent.Handlers.{enqueue_task, classified_fields}
use cloud_multi_agent_manage.QueueAgent.Enqueued.{
  score_of_task, queued, enqueue_task-request_payload,
}
use cloud_multi_agent_manage.Api.Tasks.{request_payload, timestamp}
use cloud_multi_agent_manage.Api.Submit.{class_of}
use cloud_multi_agent_manage.QueueAgent.Queues.{
  IsQueues, IsQueues-entered, IsQueues-write_task, view-entered, zset-score_insert,
}

score_insert_twice :
    {F : Type 0} (m : String) (x x' : F) (z : List (String × F))
    → score_insert m x' (score_insert m x z) ≡ score_insert m x' z
score_insert_twice m x x' [] = rw (eq_refl m) refl
score_insert_twice m x x' ((n, y) ∷ z) = ground (arith, score_insert_twice m x x' z)

module _ ⦃p : Platform⦄ (laws : IsRedis) where
  open p use {F, Store}
  open laws use {view, view-write_self, view-write_ne}

  module _ (t : TaskCreate F) (id : String) (m : ℕ) (score : F) (priority : ℤ)
      (z y : List (String × F)) (h : Hash) (s : Store) where
    view-queued :
        let after = queued laws t id m score priority z y h s in
        (view waiting after ≡ zset (score_insert id score z))
        × (view (class_queue (class_of t)) after ≡ zset (score_insert id score y))
    view-queued =
        let fields =
          classified_fields (request_payload t id m) (class_of t) score (timestamp m) priority in
        let s3 = entered laws (class_of t) id score z y s in
        let e = hash (hash_update h fields) in
        let (vz, vy) = view-entered laws (class_of t) id score z y s in
        (
          view-write_ne waiting (task id) e s3 (λ q. cc) ∙ vz,
          view-write_ne (class_queue (class_of t)) (task id) e s3 (λ q. cc) ∙ vy,
        )

    IsQueues-queued : IsQueues laws s → IsQueues laws (queued laws t id m score priority z y h s)
    IsQueues-queued q =
        IsQueues-write_task laws id _ _ (IsQueues-entered laws (class_of t) id score z y s q)

  -- Handling a submitted task again queues it once: where the services are ready, the queues are
  -- sorted sets or not there, the task has a hash, and the ageing factor and the capped priorities at
  -- both times are numbers, the second handling succeeds as well, and the task stands in the waiting
  -- queue and in the queue of its class once, under its score at the second time, beside what stood
  -- there before the first.
  pub enqueue_task-enqueue_task :
      (t : TaskCreate F) (id cid cid' : String) (m : ℕ) (a : F) (priority priority' : ℤ) (h : Hash)
      (z y : List (String × F)) (w : World)
      → IsReady w
      → IsQueues laws w.redis
      → view waiting w.redis ≡ zset_or_absent z
      → view (class_queue (class_of t)) w.redis ≡ zset_or_absent y
      → view (task id) w.redis ≡ hash h
      → float_of
          (get_nested w.config ("agents" ∷ "queue" ∷ "aging_factor" ∷ []) (float (p.lit 5 2)))
        ≡ ok a
      → capped_priority (score_of_task a t m (p.time_at (suc w.readings))) ≡ ok priority
      → let v = (enqueue_task (request_payload t id m) cid w).1 in
        let score = score_of_task a t m (p.time_at (suc v.readings)) in
        capped_priority score ≡ ok priority'
        → let (r, u) = enqueue_task (request_payload t id m) cid' v in
          (r ≡ ok tt)
          × (view waiting u.redis ≡ zset (score_insert id score z))
          × (view (class_queue (class_of t)) u.redis ≡ zset (score_insert id score y))
  enqueue_task-enqueue_task t id cid cid' m a priority priority' h z y w ready q vz vy vh ea ep
        ep' =
      let d = request_payload t id m in
      let x = score_of_task a t m (p.time_at (suc w.readings)) in
      let v = (enqueue_task d cid w).1 in
      let u = (enqueue_task d cid' v).1 in
      let x' = score_of_task a t m (p.time_at (suc v.readings)) in
      let z' = score_insert id x z in
      let y' = score_insert id x y in
      let h' = hash_update h (classified_fields d (class_of t) x (timestamp m) priority) in
      let (done, redis, still, config) =
        enqueue_task-request_payload laws t id cid m a priority h z y w ready q vz vy vh ea ep in
      let (wz, wy) = view-queued t id m x priority z y h w.redis in
      let (done', redis', still', config') =
        enqueue_task-request_payload laws t id cid' m a priority' h' z' y' v still
          (subst (IsQueues laws) (sym redis) (IsQueues-queued t id m x priority z y h w.redis q))
          (ap (view waiting) redis ∙ wz ∙ zset-score_insert laws id x z)
          (ap (view (class_queue (class_of t))) redis ∙ wy ∙ zset-score_insert laws id x y)
          (ap (view (task id)) redis ∙ view-write_self (task id) (hash h') _)
          (ap
              (λ c.
                float_of
                  (get_nested c ("agents" ∷ "queue" ∷ "aging_factor" ∷ []) (float (p.lit 5 2))))
              config
            ∙ ea)
          ep' in
      let (uz, uy) = view-queued t id m x' priority' z' y' h' v.redis in
      (
        done',
        ap (view waiting) redis' ∙ uz ∙ ap zset (score_insert_twice id x x' z),
        ap (view (class_queue (class_of t))) redis' ∙ uy ∙ ap zset (score_insert_twice id x x' y),
      )
