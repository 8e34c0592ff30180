-- ===== src/QueueAgent/Queues.antt =====
-- services/queue_agent/main.py: the queues of Redis, before and after a task enters them.
use cloud_multi_agent_manage.Prelude.{
  ◌≡◌, ◌≢◌, refl, ap, ◌∙◌, String, List, [], ◌∷◌, arith, str_eq, eq_iff, Bool-cases, inl, inr,
}
use cloud_multi_agent_manage.Key.{Key, task, waiting, class_queue}
use cloud_multi_agent_manage.Platform.{Platform, ok}
use cloud_multi_agent_manage.Platform.Laws.{IsRedis, Entry, zset, score_insert, zset_or_absent}
use cloud_multi_agent_manage.Exec.{World}
use cloud_multi_agent_manage.QueueAgent.Priority.{task_classes}
use cloud_multi_agent_manage.QueueAgent.Handlers.{set_queue_metrics, set_class_metrics}
use cloud_multi_agent_manage.ExecutorAgent.Dequeue.{zcard-view, entered}

class_queue-injective : (b c : String) → class_queue b ≡ class_queue c → b ≡ c
class_queue-injective b c h = cc

module _ ⦃p : Platform⦄ (laws : IsRedis) where
  open p use {F, Store}
  open laws use {view, write, hset_lem, view-write_self, view-write_ne}

  -- The waiting queue and the queue of every class are sorted sets, or are not there.
  abbrev pub IsQueues : Store → Type 0
  IsQueues s =
      ((z : List (String × F)) × (view waiting s ≡ zset_or_absent z))
      × ((c : String) → (z : List (String × F)) × (view (class_queue c) s ≡ zset_or_absent z))

  set_class_metrics-IsQueues :
      (cs : List String) (w : World) → IsQueues w.redis → set_class_metrics cs w ≡ (ok tt, w)
  unfolding set_class_metrics
  set_class_metrics-IsQueues [] w q = refl
  set_class_metrics-IsQueues (c ∷ cs) w q =
      let (z, v) = q.1 c in
      rw (set_class_metrics, zcard-view laws (class_queue c) z w.redis v)
        (set_class_metrics-IsQueues cs w q)

  pub set_queue_metrics-IsQueues : (w : World) → IsQueues w.redis → set_queue_metrics w ≡ (ok tt, w)
  unfolding set_queue_metrics
  set_queue_metrics-IsQueues w q =
      let (z, v) = q.0 in
      rw (zcard-view laws waiting z w.redis v) (set_class_metrics-IsQueues task_classes w q)

  pub zset-score_insert :
      (t : String) (x : F) (z : List (String × F))
      → zset (score_insert t x z) ≡ zset_or_absent (score_insert t x z)
  zset-score_insert t x [] = refl
  zset-score_insert t x ((n, y) ∷ z) = ground arith

  pub view-entered :
      (c t : String) (x : F) (z y : List (String × F)) (s : Store)
      → (view waiting (entered laws c t x z y s) ≡ zset (score_insert t x z))
        × (view (class_queue c) (entered laws c t x z y s) ≡ zset (score_insert t x y))
  view-entered c t x z y s =
      let s' = write waiting (zset (score_insert t x z)) s in
      (
        view-write_ne waiting (class_queue c) (zset (score_insert t x y)) s' (λ h. cc)
            ∙ view-write_self waiting (zset (score_insert t x z)) s,
        view-write_self (class_queue c) (zset (score_insert t x y)) s',
      )

  -- The keys that an entry leaves as they are.
  pub view-entered_ne :
      (k : Key) (c t : String) (x : F) (z y : List (String × F)) (s : Store)
      → k ≢ waiting
      → k ≢ class_queue c
      → view k (entered laws c t x z y s) ≡ view k s
  view-entered_ne k c t x z y s n m =
      let s' = write waiting (zset (score_insert t x z)) s in
      view-write_ne k (class_queue c) (zset (score_insert t x y)) s' m
      ∙ view-write_ne k waiting (zset (score_insert t x z)) s n

  pub IsQueues-entered :
      (c t : String) (x : F) (z y : List (String × F)) (s : Store)
      → IsQueues s
      → IsQueues (entered laws c t x z y s)
  IsQueues-entered c t x z y s q =
      let (vz, vy) = view-entered c t x z y s in
      (
        (score_insert t x z, vz ∙ zset-score_insert t x z),
        λ b. elim (Bool-cases (str_eq b c)) [
          | inl e ↦ (
            score_insert t x y,
            ap (λ k. view (class_queue k) (entered laws c t x z y s)) ((eq_iff b c).0 e)
                ∙ vy
                ∙ zset-score_insert t x y,
          )
          | inr e ↦
              let (l, v) = q.1 b in
              (
                l,
                view-entered_ne (class_queue b) c t x z y s (λ h. cc)
                      (λ h. let t = (eq_iff b c).1 (class_queue-injective b c h) in cc)
                    ∙ v,
              )
        ],
      )

  pub IsQueues-write_task :
      (id : String) (e : Entry F) (s : Store) → IsQueues s → IsQueues (write (task id) e s)
  IsQueues-write_task id e s ((z, v), q) = (
    (z, view-write_ne waiting (task id) e s (λ h. cc) ∙ v),
    λ c. let (y, u) = q c in (y, view-write_ne (class_queue c) (task id) e s (λ h. cc) ∙ u),
  )
