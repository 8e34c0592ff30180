-- ===== src/ExecutorAgent/Written.antt =====
-- services/executor_agent/main.py: the status that an HSET leaves in the hash of a task.
use cloud_multi_agent_manage.Prelude.{
  ℕ, String, ◌≡◌, refl, sym, ap, ◌∙◌, false, some, [], ◌∷◌, arith, str_eq,
}
use cloud_multi_agent_manage.Value.{Payload, Hash, hash_lookup, hash_insert, hash_update}
use cloud_multi_agent_manage.Value.Laws.{hash_lookup-insert}
use cloud_multi_agent_manage.Key.{task}
use cloud_multi_agent_manage.Platform.{Platform, ok}
use cloud_multi_agent_manage.Platform.Laws.{IsRedis, Entry, hash, hset_entry, written}
use cloud_multi_agent_manage.Persistence.{save_execution}
use cloud_multi_agent_manage.Runtime.{announce}
use cloud_multi_agent_manage.Runtime.Laws.{redis-announce}
use cloud_multi_agent_manage.Exec.{World, command, stored, ◌>>◌}
use cloud_multi_agent_manage.Exec.Laws.{redis-bind}

module _ ⦃p : Platform⦄ (laws : IsRedis) where
  open p use {F, Store}
  open laws use {view, write, hset_lem, view-write_self}

  -- The hash of the task is there and has that status.
  abbrev pub HasStatus : String → String → Store → Type 0
  HasStatus id status s =
      (h : Hash) × (view (task id) s ≡ hash h) × (hash_lookup "status" h ≡ some status)

  pub hash_lookup-status :
      (h : Hash) (status k t : String)
      → str_eq k "status" ≡ false
      → hash_lookup "status" (hash_update h (("status", status) ∷ (k, t) ∷ [])) ≡ some status
  unfolding hash_update
  hash_lookup-status h status k t n = ground (
    arith,
    hash_lookup-insert k "status" t (hash_insert "status" status h),
    hash_lookup-insert "status" "status" status h,
  )

  written-status :
      (id status k t : String) (g : Hash) (w v : World)
      → str_eq k "status" ≡ false
      → stored
          (ok (write (task id) (hash (hash_update g (("status", status) ∷ (k, t) ∷ []))) w.redis))
          w
        ≡ (ok tt, v)
      → HasStatus id status v.redis
  written-status id status k t g w v n h =
      let g' = hash_update g (("status", status) ∷ (k, t) ∷ []) in
      (
        g',
        sym (ap (λ x. view (task id) x.1.redis) h) ∙ view-write_self (task id) (hash g') w.redis,
        hash_lookup-status g status k t n,
      )

  stored-status :
      (id status k t : String) (x : Entry F) (w v : World)
      → str_eq k "status" ≡ false
      → stored
          (written
            (λ e. write (task id) e w.redis)
            (hset_entry (("status", status) ∷ (k, t) ∷ []) x))
          w
        ≡ (ok tt, v)
      → HasStatus id status v.redis
  stored-status id status k t Entry.absent w v n h = written-status id status k t [] w v n h
  stored-status id status k t (Entry.string u) w v n h = cc
  stored-status id status k t (hash g) w v n h = written-status id status k t g w v n h
  stored-status id status k t (Entry.set l) w v n h = cc
  stored-status id status k t (Entry.zset z) w v n h = cc

  command-status :
      (id status k t : String) (w v : World)
      → str_eq k "status" ≡ false
      → command (p.redis_hset (task id) (("status", status) ∷ (k, t) ∷ [])) w ≡ (ok tt, v)
      → HasStatus id status v.redis
  command-status id status k t w v n h =
      let m = ("status", status) ∷ (k, t) ∷ [] in
      stored-status id status k t (view (task id) w.redis) w v n
        (sym (ap (λ r. stored r w) (hset_lem (task id) m w.redis)) ∙ h)

  -- What ends both ways of an execution leaves Redis as it is.
  pub redis-recorded :
      (id cid node_id status source : String) (a b : ℕ) (x d : Payload F) (k et : String)
      (w v : World)
      → (save_execution id cid node_id status a b x >> announce k et cid source d) w ≡ (ok tt, v)
      → v.redis ≡ w.redis
  unfolding save_execution
  redis-recorded id cid node_id status source a b x d k et w v h =
      sym (ap (λ r. r.1.redis) h)
      ∙ redis-bind (save_execution id cid node_id status a b x) (λ _. announce k et cid source d) w
          (λ u. refl) (λ _ u. redis-announce k et cid source d u)

  pub status-after :
      (id status k t : String) (w u v : World)
      → str_eq k "status" ≡ false
      → command (p.redis_hset (task id) (("status", status) ∷ (k, t) ∷ [])) w ≡ (ok tt, u)
      → v.redis ≡ u.redis
      → HasStatus id status v.redis
  status-after id status k t w u v n h r =
      let (g, a, b) = command-status id status k t w u n h in (g, ap (view (task id)) r ∙ a, b)
