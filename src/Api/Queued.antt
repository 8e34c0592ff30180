-- ===== src/Api/Queued.antt =====
-- services/api_service/main.py and services/queue_agent/main.py: from a submission to the queues.
use cloud_multi_agent_manage.Prelude.{suc, ◌+◌, ◌≡◌, refl, ap, ◌∙◌, none, String, List, [], ◌∷◌}
use cloud_multi_agent_manage.Prelude.Int.{ℤ}
use cloud_multi_agent_manage.Value.{float, hash_update}
use cloud_multi_agent_manage.Key.{task, waiting, class_queue}
use cloud_multi_agent_manage.Platform.{Platform, ok}
use cloud_multi_agent_manage.Platform.Laws.{
  IsRedis, absent, hash, zset, score_insert, zset_or_absent, hset_entry, written,
}
use cloud_multi_agent_manage.Message.{TaskCreate}
use cloud_multi_agent_manage.Python.{get_nested, float_of}
use cloud_multi_agent_manage.Statement.{insert_task}
use cloud_multi_agent_manage.Database.{row_of}
use cloud_multi_agent_manage.Exec.{World}
use cloud_multi_agent_manage.Runtime.Laws.{IsReady, topic_of, sent_by, event_row}
use cloud_multi_agent_manage.QueueAgent.Priority.{capped_priority}
use cloud_multi_agent_manage.QueueAgent.Handlers.{enqueue_task, classified_fields}
use cloud_multi_agent_manage.QueueAgent.Queues.{IsQueues, IsQueues-write_task, view-entered}
use cloud_multi_agent_manage.QueueAgent.Enqueued.{score_of_task, enqueue_task-request_payload}
use cloud_multi_agent_manage.ExecutorAgent.Dequeue.{entered}
use cloud_multi_agent_manage.Api.Tasks.{
  submit_task, new_task, request_payload, created_hash, timestamp,
}
use cloud_multi_agent_manage.Api.Submit.{class_of, request_event, IsStorable, submit_task_lem}

module _ ⦃p : Platform⦄ (laws : IsRedis) where
  open p use {F}
  open laws use {view, write, hset_lem, view-write_self, view-write_ne}

  -- A submitted task reaches its queues: where the services are ready, the queues are sorted sets or not
  -- there, the fresh identifier names no hash yet, and the ageing factor and the capped priority are
  -- numbers, the API accepts the task and the queue agent then queues it. It stands in the waiting
  -- queue and in the queue of its class, under its score at that time, beside what stood there, and
  -- its hash says that it is classified.
  pub enqueue_task-submit_task :
      (t : TaskCreate F) (a : F) (priority : ℤ) (z y : List (String × F)) (w : World)
      → IsReady w
      → IsQueues laws w.redis
      → view waiting w.redis ≡ zset_or_absent z
      → view (class_queue (class_of t)) w.redis ≡ zset_or_absent y
      → view (task (p.uuid4 w.readings)) w.redis ≡ absent
      → IsStorable t
      → row_of (p.uuid4 w.readings) w.statements ≡ none
      → float_of
          (get_nested w.config ("agents" ∷ "queue" ∷ "aging_factor" ∷ []) (float (p.lit 5 2)))
        ≡ ok a
      → let n = w.readings in
        let score = score_of_task a t (n + 2) (p.time_at (suc (n + 5))) in
        capped_priority score ≡ ok priority
        → let n = w.readings in
          let score = score_of_task a t (n + 2) (p.time_at (suc (n + 5))) in
          let id = p.uuid4 n in
          let cid = p.uuid4 (n + 1) in
          let (r, u) = submit_task t w in
          let (q, v) = enqueue_task (request_payload t id (n + 2)) cid u in
          (r ≡ ok (record { task_id = id; correlation_id = cid }))
          × (q ≡ ok tt)
          × (view waiting v.redis ≡ zset (score_insert id score z))
          × (view (class_queue (class_of t)) v.redis ≡ zset (score_insert id score y))
          × (view (task id) v.redis
              ≡ hash (
                  hash_update (hash_update [] (created_hash t cid (n + 2))) (
                    classified_fields
                      (request_payload t id (n + 2))
                      (class_of t)
                      score
                      (timestamp (n + 2))
                      priority)))
  enqueue_task-submit_task t a priority z y w ready q vz vy vt storable fresh ea ep =
      let n = w.readings in
      let id = p.uuid4 n in
      let cid = p.uuid4 (n + 1) in
      let h = hash_update [] (created_hash t cid (n + 2)) in
      let s = write (task id) (hash h) w.redis in
      let (db, bus, rabbit) = ready in
      let e = request_event t n in
      let u : World = record w {
        redis = s;
        statements =
            event_row e ∷ insert_task (new_task id cid t (p.datetime_at (n + 2))) ∷ w.statements;
        sent = sent_by w.event_backend (topic_of w "request_created") e w.sent;
        readings = n + 5;
      } in
      let es : p.redis_hset (task id) (created_hash t cid (n + 2)) w.redis ≡ ok s =
        hset_lem (task id) (created_hash t cid (n + 2)) w.redis
        ∙ ap (written (λ x. write (task id) x w.redis))
            (ap (hset_entry (created_hash t cid (n + 2))) vt) in
      let uz : view waiting s ≡ zset_or_absent z =
        view-write_ne waiting (task id) (hash h) w.redis (λ x. cc) ∙ vz in
      let uy : view (class_queue (class_of t)) s ≡ zset_or_absent y =
        view-write_ne (class_queue (class_of t)) (task id) (hash h) w.redis (λ x. cc) ∙ vy in
      let score = score_of_task a t (n + 2) (p.time_at (suc (n + 5))) in
      let s3 = entered laws (class_of t) id score z y s in
      let h' = hash_update h (
        classified_fields (request_payload t id (n + 2)) (class_of t) score (timestamp (n + 2))
          priority) in
      let (vz', vy') = view-entered laws (class_of t) id score z y s in
      let (done, redis, still, config) =
        enqueue_task-request_payload laws t id cid (n + 2) a priority h z y u ready
          (IsQueues-write_task laws id (hash h) w.redis q) uz uy
          (view-write_self (task id) (hash h) w.redis) ea ep in
      rw (submit_task_lem t w s bus rabbit es storable fresh) (
        refl,
        done,
        ap (view waiting) redis ∙ view-write_ne waiting (task id) (hash h') s3 (λ x. cc) ∙ vz',
        ap (view (class_queue (class_of t))) redis
            ∙ view-write_ne (class_queue (class_of t)) (task id) (hash h') s3 (λ x. cc)
            ∙ vy',
        ap (view (task id)) redis ∙ view-write_self (task id) (hash h') s3,
      )
