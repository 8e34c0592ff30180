-- ===== src/ExecutorAgent/Failing.antt =====
-- services/executor_agent/main.py: one pass of the loop of `fail_tasks_on_node`.
use cloud_multi_agent_manage.Prelude.{
  ℕ, suc, String, ◌≡◌, refl, sym, ap, ◌∙◌, subst, false, List, [], ◌∷◌, arith, str_eq, eq_iff,
  eq_refl, Bool-cases, inl, inr,
}
use cloud_multi_agent_manage.Value.{Value, Payload, Hash, str, field, empty, hash_update, is_empty}
use cloud_multi_agent_manage.Key.{task}
use cloud_multi_agent_manage.Platform.{Platform, ok}
use cloud_multi_agent_manage.Platform.Laws.{
  IsRedis, Entry, hash, absent, hgetall_entry, hset_entry, written,
}
use cloud_multi_agent_manage.Persistence.{update_task}
use cloud_multi_agent_manage.Statement.{Statement}
use cloud_multi_agent_manage.Runtime.Laws.{IsReady, redis-announce, announce-IsReady}
use cloud_multi_agent_manage.Exec.{World}
use cloud_multi_agent_manage.Database.{row_of, set_columns}
use cloud_multi_agent_manage.Database.Statuses.{StatusIs, StatusIs-updated, row_of-announce}
use cloud_multi_agent_manage.ExecutorAgent.Reserve.{fail_task}
use cloud_multi_agent_manage.ExecutorAgent.Written.{HasStatus, hash_lookup-status}

task-injective : (t x : String) → task t ≡ task x → t ≡ x
task-injective t x h = cc

module _ {F : Type 0} where
  hset-hgetall :
      (m h : Hash) (e : Entry F)
      → hgetall_entry e ≡ ok h
      → hset_entry m e ≡ ok (hash (hash_update h m))
  hset-hgetall m h absent q = ground (arith, q)
  hset-hgetall m h (Entry.string t) q = cc
  hset-hgetall m h (hash g) q = ground (arith, q)
  hset-hgetall m h (Entry.set l) q = cc
  hset-hgetall m h (Entry.zset z) q = cc

  abbrev failed_columns : String → List (String × Value F)
  failed_columns reason = ("status", str "failed") ∷ ("error", str reason) ∷ []

  StatusIs-failed :
      (t x reason : String) (n : ℕ) (l : List (Statement F))
      → (str_eq x t ≡ false → StatusIs "failed" (row_of t l))
      → StatusIs "failed" (row_of t (Statement.update_task (failed_columns reason) n x ∷ l))
  unfolding row_of set_columns
  StatusIs-failed t x reason n l h = elim (Bool-cases (str_eq x t)) [
    | inl e ↦ rw e (StatusIs-updated "failed" (failed_columns reason) n (row_of t l) (λ r. refl))
    | inr e ↦ rw e (h e)
  ]

module _ ⦃p : Platform⦄ (laws : IsRedis) where
  open p use {F, Store}
  open laws use {view, write, hset_lem, smembers_lem, delete_lem, view-write_self, view-write_ne}

  -- The key of the task holds a hash or nothing.
  abbrev pub IsReadable : String → Store → Type 0
  IsReadable t s = (h : Hash) × (hgetall_entry (view (task t) s) ≡ ok h)

  -- The task is failed in Redis, and in the database if it has a row there.
  abbrev pub IsFailed : String → World → Type 0
  IsFailed t w = HasStatus laws t "failed" w.redis × StatusIs "failed" (row_of t w.statements)

  abbrev failed_fields : String → Hash
  failed_fields reason = ("status", "failed") ∷ ("error", reason) ∷ []

  module _ (node_id reason cid x : String) (h : Hash) (w : World) where
    abbrev failed_store : Store
    failed_store = write (task x) (hash (hash_update h (failed_fields reason))) w.redis

    -- What one pass of the loop leaves.
    fail_task_lem :
        IsReady w
        → hgetall_entry (view (task x) w.redis) ≡ ok h
        → let (r, v) = fail_task node_id reason cid x w in
          (r ≡ ok tt)
          × IsReady v
          × (v.redis ≡ failed_store)
          × ((t : String)
              → row_of t v.statements
                ≡ row_of t (
                    Statement.update_task (failed_columns reason) (p.datetime_at w.readings) x
                    ∷ w.statements))
    unfolding fail_task update_task is_empty
    fail_task_lem ready q =
        let e : p.redis_hset (task x) (failed_fields reason) w.redis ≡ ok failed_store =
          hset_lem (task x) (failed_fields reason) w.redis
          ∙ ap (written (λ e. write (task x) e w.redis)) (hset-hgetall _ h _ q) in
        let u : World = record w {
          redis = failed_store;
          statements =
              Statement.update_task (failed_columns reason) (p.datetime_at w.readings) x
              ∷ w.statements;
          readings = suc w.readings;
        } in
        let d : Payload F = field "task_id" (str x) (
          field "node_id" (str node_id)
            (field "status" (str "failed") (field "reason" (str reason) empty))) in
        let (done, still) =
          announce-IsReady "execution_failed" "execution.failed" cid "executor-agent" d u ready in
        rw e (
          done,
          still,
          redis-announce "execution_failed" "execution.failed" cid "executor-agent" d u,
          λ t. row_of-announce t "execution_failed" "execution.failed" cid "executor-agent" d u,
        )

  -- What one pass of the loop keeps, and what it establishes.
  pub fail_task-step :
      (node_id reason cid x : String) (w : World)
      → IsReady w
      → IsReadable x w.redis
      → let (r, v) = fail_task node_id reason cid x w in
        (r ≡ ok tt)
        × IsReady v
        × IsFailed x v
        × ((t : String) → IsReadable t w.redis → IsReadable t v.redis)
        × ((t : String) → IsFailed t w → IsFailed t v)
  fail_task-step node_id reason cid x w ready (h, q) =
      let (done, still, redis, rows) = fail_task_lem node_id reason cid x h w ready q in
      let g = hash_update h (failed_fields reason) in
      let n = p.datetime_at w.readings in
      let v = (fail_task node_id reason cid x w).1 in
      let own : view (task x) v.redis ≡ hash g =
        ap (view (task x)) redis ∙ view-write_self (task x) (hash g) w.redis in
      let other : (t : String)
          → str_eq t x ≡ false
          → view (task t) v.redis ≡ view (task t) w.redis =
        λ t e.
          ap (view (task t)) redis
          ∙ view-write_ne (task t) (task x) (hash g) w.redis
              (λ same. let eq = (eq_iff t x).1 (task-injective t x same) in cc) in
      let has : HasStatus laws x "failed" v.redis =
        (g, own, hash_lookup-status laws h "failed" "error" reason refl) in
      let row : (t : String)
          → (str_eq x t ≡ false → StatusIs "failed" (row_of t w.statements))
          → StatusIs "failed" (row_of t v.statements) =
        λ t k.
          subst (StatusIs "failed") (sym (rows t)) (StatusIs-failed t x reason n w.statements k) in
      (
        done,
        still,
        (has, row x (λ e. let same = eq_refl x in cc)),
        λ t (i, e). elim (Bool-cases (str_eq t x)) [
          | inl same ↦ (
            g,
            ap (λ k. hgetall_entry (view (task k) v.redis)) ((eq_iff t x).0 same)
                ∙ ap hgetall_entry own,
          )
          | inr apart ↦ (i, ap hgetall_entry (other t apart) ∙ e)
        ],
        λ t (status, old). elim (Bool-cases (str_eq t x)) [
          | inl same ↦ (
            subst (λ k. HasStatus laws k "failed" v.redis) (sym ((eq_iff t x).0 same)) has,
            row t (λ e. old),
          )
          | inr apart ↦ let (i, e, s) = status in ((i, other t apart ∙ e, s), row t (λ k. old))
        ],
      )
