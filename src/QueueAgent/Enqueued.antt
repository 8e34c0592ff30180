-- ===== src/QueueAgent/Enqueued.antt =====
-- services/queue_agent/main.py: a submitted task enters the queue of its class.
use cloud_multi_agent_manage.Prelude.{ℕ, suc, ◌≡◌, refl, ap, ◌∙◌, String, none, List, [], ◌∷◌}
use cloud_multi_agent_manage.Prelude.Int.{ℤ, pos}
use cloud_multi_agent_manage.Value.{
  Payload, Hash, str, int, float, lookup, get_or, insert, merge, hash_update, is_empty,
}
use cloud_multi_agent_manage.Key.{task, waiting, class_queue}
use cloud_multi_agent_manage.Platform.{Platform, ok}
use cloud_multi_agent_manage.Platform.Laws.{IsRedis, hash, zset_or_absent, hset_entry, written}
use cloud_multi_agent_manage.Message.{TaskCreate}
use cloud_multi_agent_manage.Python.{item, get_nested, float_of}
use cloud_multi_agent_manage.Persistence.{update_task}
use cloud_multi_agent_manage.Statement.{Statement}
use cloud_multi_agent_manage.Runtime.{announce}
use cloud_multi_agent_manage.Runtime.Laws.{
  IsReady, redis-announce, announce-IsReady, config-announce,
}
use cloud_multi_agent_manage.Exec.{World, ◌>>◌}
use cloud_multi_agent_manage.QueueAgent.Priority.{
  dynamic_priority, priority_at, capped_priority, or_now,
}
use cloud_multi_agent_manage.QueueAgent.Handlers.{enqueue_task, classified_fields}
use cloud_multi_agent_manage.ExecutorAgent.Dequeue.{zadd_both_lem, zcard-view, entered}
use cloud_multi_agent_manage.Api.Tasks.{request_payload, timestamp}
use cloud_multi_agent_manage.Api.Submit.{class_of, classify-request_payload}
use cloud_multi_agent_manage.QueueAgent.Queues.{
  IsQueues, set_queue_metrics-IsQueues, IsQueues-entered, IsQueues-write_task, view-entered_ne,
}

module _ ⦃p : Platform⦄ where
  open p use {F, Store}

  item-request_payload :
      (t : TaskCreate F) (id : String) (m : ℕ) → item "task_id" (request_payload t id m) ≡ ok id
  unfolding lookup insert merge
  item-request_payload t id m = refl

  created-request_payload :
      (t : TaskCreate F) (id : String) (m : ℕ) (x : F)
      → float_of (get_or "created_at_ts" (float x) (request_payload t id m)) ≡ ok (timestamp m)
  unfolding lookup insert merge get_or
  created-request_payload t id m x = refl

  -- The score of a submitted task, when the clock reads `current`.
  abbrev pub score_of_task : F → TaskCreate F → ℕ → F → F
  score_of_task aging_factor t m current =
      priority_at aging_factor (timestamp m) current t.priority (pos 0)

  dynamic_priority-request_payload :
      (t : TaskCreate F) (id : String) (m : ℕ) (a : F) (w : World)
      → float_of
          (get_nested w.config ("agents" ∷ "queue" ∷ "aging_factor" ∷ []) (float (p.lit 5 2)))
        ≡ ok a
      → dynamic_priority (request_payload t id m) (timestamp m) none w
        ≡ (ok (score_of_task a t m (p.time_at w.readings)), record w { readings = suc w.readings })
  unfolding dynamic_priority or_now lookup insert merge get_or
  dynamic_priority-request_payload t id m a w h = rw h refl

  update_task-classified :
      (id : String) (priority : ℤ) (w : World)
      → update_task id (("status", str "classified") ∷ ("priority", int priority) ∷ []) w ≡ (
        ok tt,
        record w {
          statements =
              Statement.update_task
                (("status", str "classified") ∷ ("priority", int priority) ∷ [])
                (p.datetime_at w.readings)
                id
              ∷ w.statements;
          readings = suc w.readings;
        },
      )
  unfolding update_task is_empty
  update_task-classified id priority w = refl

  announce_two :
      (k k' et et' cid source : String) (d : Payload F) (w : World)
      → IsReady w
      → let (r, v) = (announce k et cid source d >> announce k' et' cid source d) w in
        (r ≡ ok tt) × (v.redis ≡ w.redis) × IsReady v × (v.config ≡ w.config)
  announce_two k k' et et' cid source d w h =
      let (first, still) = announce-IsReady k et cid source d w h in
      let v = (announce k et cid source d w).1 in
      let (second, last) = announce-IsReady k' et' cid source d v still in
      rw (first) (
        second,
        redis-announce k' et' cid source d v ∙ redis-announce k et cid source d w,
        last,
        config-announce k' et' cid source d v ∙ config-announce k et cid source d w,
      )

  module _ (laws : IsRedis) where
    open laws use {view, write, hset_lem, view-write_self, view-write_ne}

    -- Redis after a submitted task has been queued with a score and its hash has been written.
    abbrev pub queued :
        TaskCreate F
        → String
        → ℕ
        → F
        → ℤ
        → List (String × F)
        → List (String × F)
        → Hash
        → Store
        → Store
    queued t id m score priority z y h s =
        write (task id)
          (hash (
            hash_update h (
              classified_fields (request_payload t id m) (class_of t) score (timestamp m)
                priority)))
          (entered laws (class_of t) id score z y s)

    -- A submitted task enters the queues; the services stay ready, and the configuration stays.
    pub enqueue_task-request_payload :
        (t : TaskCreate F) (id cid : String) (m : ℕ) (a : F) (priority : ℤ) (h : Hash)
        (z y : List (String × F)) (w : World)
        → IsReady w
        → IsQueues laws w.redis
        → view waiting w.redis ≡ zset_or_absent z
        → view (class_queue (class_of t)) w.redis ≡ zset_or_absent y
        → view (task id) w.redis ≡ hash h
        → float_of
            (get_nested w.config ("agents" ∷ "queue" ∷ "aging_factor" ∷ []) (float (p.lit 5 2)))
          ≡ ok a
        → capped_priority (score_of_task a t m (p.time_at (suc w.readings))) ≡ ok priority
        → let score = score_of_task a t m (p.time_at (suc w.readings)) in
          let (r, v) = enqueue_task (request_payload t id m) cid w in
          (r ≡ ok tt)
          × (v.redis ≡ queued t id m score priority z y h w.redis)
          × IsReady v
          × (v.config ≡ w.config)
    unfolding enqueue_task
    enqueue_task-request_payload t id cid m a priority h z y w ready q vz vy vh ea ep =
        let d = request_payload t id m in
        let score = score_of_task a t m (p.time_at (suc w.readings)) in
        let w1 : World = record w { readings = suc w.readings } in
        let w2 : World = record w { readings = suc (suc w.readings) } in
        let s3 = entered laws (class_of t) id score z y w.redis in
        let w3 : World = record w2 { redis = s3 } in
        let fields = classified_fields d (class_of t) score (timestamp m) priority in
        let s4 = write (task id) (hash (hash_update h fields)) s3 in
        let w4 : World = record w2 { redis = s4 } in
        let q4 : IsQueues laws s4 =
          IsQueues-write_task laws id (hash (hash_update h fields)) s3
            (IsQueues-entered laws (class_of t) id score z y w.redis q) in
        let v3 : view (task id) s3 ≡ hash h =
          view-entered_ne laws (task id) (class_of t) id score z y w.redis (λ e. cc) (λ e. cc)
          ∙ vh in
        let e4 : p.redis_hset (task id) fields s3 ≡ ok s4 =
          hset_lem (task id) fields s3
          ∙ ap (written (λ e. write (task id) e s3)) (ap (hset_entry fields) v3) in
        let (l, vl) = q4.0 in
        rw
          (
            item-request_payload t id m,
            created-request_payload t id m (p.time_at w.readings),
            classify-request_payload t id m,
            dynamic_priority-request_payload t id m a w1 ea,
            zadd_both_lem laws (class_of t) id score z y w2 vz vy,
            ep,
            e4,
            set_queue_metrics-IsQueues laws w4 q4,
            update_task-classified id priority w4,
            zcard-view laws waiting l s4 vl,
          )
          (announce_two "request_classified" "need_placement" "request.classified" "need_placement"
            cid "queue-agent" _ _ ready)
