-- ===== src/ExecutorAgent/Dequeue.antt =====
-- `remove_from_waiting` undoes what the queue agent's two ZADDs did.
use cloud_multi_agent_manage.Prelude.{
  length, String, ◌≡◌, refl, ap, ◌∙◌, none, List, [], ◌∷◌, arith, eq_refl,
}
use cloud_multi_agent_manage.Key.{Key, waiting, class_queue}
use cloud_multi_agent_manage.Platform.{Platform, ok}
use cloud_multi_agent_manage.Platform.Laws.{
  IsRedis, zset, score_insert, score_erase, score_of, zset_or_absent, zadd_entry, zrem_entry,
  zcard_entry, written,
}
use cloud_multi_agent_manage.Exec.{World}
use cloud_multi_agent_manage.QueueAgent.Handlers.{zadd_both}
use cloud_multi_agent_manage.ExecutorAgent.Reserve.{remove_from_waiting}

score_erase-score_insert :
    {F : Type 0} (m : String) (x : F) (z : List (String × F))
    → score_of m z ≡ none
    → score_erase m (score_insert m x z) ≡ z
score_erase-score_insert m x [] h = rw (eq_refl m) refl
score_erase-score_insert m x ((n, y) ∷ z) h = ground (arith, score_erase-score_insert m x z)

zadd_entry-zset_or_absent :
    {F : Type 0} (m : String) (x : F) (z : List (String × F))
    → zadd_entry m x (zset_or_absent z) ≡ ok (zset (score_insert m x z))
zadd_entry-zset_or_absent m x [] = refl
zadd_entry-zset_or_absent m x (e ∷ z) = refl

module _ ⦃p : Platform⦄ (laws : IsRedis) where
  open p use {F, Store}
  open laws use {view, write, zadd_lem, zrem_lem, zcard_lem, view-write_self, view-write_ne}

  zadd-view :
      (k : Key) (m : String) (x : F) (z : List (String × F)) (s : Store)
      → view k s ≡ zset_or_absent z
      → p.redis_zadd k m x s ≡ ok (write k (zset (score_insert m x z)) s)
  zadd-view k m x z s v =
      zadd_lem k m x s
      ∙ ap (written (λ e. write k e s)) (ap (zadd_entry m x) v ∙ zadd_entry-zset_or_absent m x z)

  zrem-view :
      (k : Key) (m : String) (x : F) (z : List (String × F)) (s : Store)
      → score_of m z ≡ none
      → view k s ≡ zset (score_insert m x z)
      → p.redis_zrem k m s ≡ ok (write k (zset_or_absent z) s)
  zrem-view k m x z s n v =
      zrem_lem k m s
      ∙ ap (written (λ e. write k e s))
          (ap (zrem_entry m) v ∙ ap (λ y. ok (zset_or_absent y)) (score_erase-score_insert m x z n))

  -- The store after a task has entered the two queues, and after it has left them.
  abbrev pub entered : String → String → F → List (String × F) → List (String × F) → Store → Store
  entered c t x z y s =
      write (class_queue c) (zset (score_insert t x y))
        (write waiting (zset (score_insert t x z)) s)

  abbrev left : String → List (String × F) → List (String × F) → Store → Store
  left c z y s = write (class_queue c) (zset_or_absent y) (write waiting (zset_or_absent z) s)

  pub zadd_both_lem :
      (c t : String) (x : F) (z y : List (String × F)) (w : World)
      → view waiting w.redis ≡ zset_or_absent z
      → view (class_queue c) w.redis ≡ zset_or_absent y
      → zadd_both c t x w ≡ (ok tt, record w { redis = entered c t x z y w.redis })
  unfolding zadd_both
  zadd_both_lem c t x z y w vz vy =
      let s = write waiting (zset (score_insert t x z)) w.redis in
      let vy' : view (class_queue c) s ≡ zset_or_absent y =
        view-write_ne (class_queue c) waiting (zset (score_insert t x z)) w.redis (λ h. cc) ∙ vy in
      rw (zadd-view waiting t x z w.redis vz, zadd-view (class_queue c) t x y s vy') refl

  pub zcard-view :
      (k : Key) (z : List (String × F)) (s : Store)
      → view k s ≡ zset_or_absent z
      → p.redis_zcard k s ≡ ok (length z)
  zcard-view k [] s v = zcard_lem k s ∙ ap zcard_entry v
  zcard-view k (e ∷ z) s v = zcard_lem k s ∙ ap zcard_entry v

  remove_from_waiting_lem :
      (c t : String) (x : F) (z y : List (String × F)) (w : World)
      → view waiting w.redis ≡ zset (score_insert t x z)
      → view (class_queue c) w.redis ≡ zset (score_insert t x y)
      → score_of t z ≡ none
      → score_of t y ≡ none
      → remove_from_waiting t c w ≡ (ok tt, record w { redis = left c z y w.redis })
  unfolding remove_from_waiting
  remove_from_waiting_lem c t x z y w vz vy nz ny =
      let s = write waiting (zset_or_absent z) w.redis in
      let u = write (class_queue c) (zset_or_absent y) s in
      let vy' : view (class_queue c) s ≡ zset (score_insert t x y) =
        view-write_ne (class_queue c) waiting (zset_or_absent z) w.redis (λ h. cc) ∙ vy in
      let wz : view waiting u ≡ zset_or_absent z =
        view-write_ne waiting (class_queue c) (zset_or_absent y) s (λ h. cc)
        ∙ view-write_self waiting (zset_or_absent z) w.redis in
      let wy : view (class_queue c) u ≡ zset_or_absent y =
        view-write_self (class_queue c) (zset_or_absent y) s in
      rw
        (
          zrem-view waiting t x z w.redis nz vz,
          zrem-view (class_queue c) t x y s ny vy',
          zcard-view waiting z u wz,
          zcard-view (class_queue c) y u wy,
        )
        refl

  -- A task that is in neither of two queues, enters both and is removed from both, leaves them as they
  -- were: both steps succeed, and the queues hold what they held before.
  pub remove_from_waiting-zadd_both :
      (c t : String) (x : F) (z y : List (String × F)) (w : World)
      → view waiting w.redis ≡ zset_or_absent z
      → view (class_queue c) w.redis ≡ zset_or_absent y
      → score_of t z ≡ none
      → score_of t y ≡ none
      → let (r, v) = zadd_both c t x w in
        let (q, u) = remove_from_waiting t c v in
        (r ≡ ok tt)
        × (q ≡ ok tt)
        × (view waiting u.redis ≡ zset_or_absent z)
        × (view (class_queue c) u.redis ≡ zset_or_absent y)
  remove_from_waiting-zadd_both c t x z y w vz vy nz ny =
      let s = write waiting (zset (score_insert t x z)) w.redis in
      let v : World = record w { redis = entered c t x z y w.redis } in
      let ez : view waiting v.redis ≡ zset (score_insert t x z) =
        view-write_ne waiting (class_queue c) (zset (score_insert t x y)) s (λ h. cc)
        ∙ view-write_self waiting (zset (score_insert t x z)) w.redis in
      let ey : view (class_queue c) v.redis ≡ zset (score_insert t x y) =
        view-write_self (class_queue c) (zset (score_insert t x y)) s in
      rw (zadd_both_lem c t x z y w vz vy, remove_from_waiting_lem c t x z y v ez ey nz ny)
        (
          refl,
          refl,
          view-write_ne waiting (class_queue c) (zset_or_absent y)
                (write waiting (zset_or_absent z) v.redis) (λ h. cc)
              ∙ view-write_self waiting (zset_or_absent z) v.redis,
          view-write_self (class_queue c) (zset_or_absent y)
              (write waiting (zset_or_absent z) v.redis),
        )
