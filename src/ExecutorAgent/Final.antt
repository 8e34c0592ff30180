-- ===== src/ExecutorAgent/Final.antt =====
-- services/executor_agent/main.py: how an execution leaves its task.
use cloud_multi_agent_manage.Prelude.{
  ℕ, String, Bool, ◌≡◌, ◌⊎◌, refl, sym, ap, ◌∙◌, subst, inl, inr, true, false, [], ◌∷◌, str_eq,
}
use cloud_multi_agent_manage.Prelude.Int.{ℤ}
use cloud_multi_agent_manage.Value.{Payload, str, field, empty, insert, get_or}
use cloud_multi_agent_manage.Key.{task, running}
use cloud_multi_agent_manage.Platform.{Platform, Error, Result, ok, err}
use cloud_multi_agent_manage.Platform.Laws.{IsRedis}
use cloud_multi_agent_manage.Message.{EventEnvelope}
use cloud_multi_agent_manage.Python.{item, text_of}
use cloud_multi_agent_manage.Persistence.{update_task, save_execution}
use cloud_multi_agent_manage.Runtime.{announce}
use cloud_multi_agent_manage.Exec.{
  World, Exec, caught, command, stored, ◌>>◌, ◌>>=◌, pure, reading, when, lift,
}
use cloud_multi_agent_manage.Database.{row_of}
use cloud_multi_agent_manage.Database.Statuses.{
  StatusIs, StatusIs-update_task, StatusIs-update_task_error, row_of-announce,
}
use cloud_multi_agent_manage.ExecutorAgent.Written.{HasStatus, status-after, redis-recorded}
use cloud_multi_agent_manage.Exec.Laws.{bind-ok}
use cloud_multi_agent_manage.ExecutorAgent.Execute.{
  Job, start_job, attempt, run, complete, recover, execute_task, acquire, release, note_error,
}

module _ ⦃p : Platform⦄ {A B : Type 0} where
  -- A `try` that ended well: its body did, or its handler.
  caught-cases :
      (m : Result A × World) (f : A → Exec B) (h : Error → Exec B) {x : Result B × World}
      → caught m.0 f h m.1 ≡ x
      → ((a : A) × (m ≡ (ok a, m.1)) × (f a m.1 ≡ x)) ⊎ ((e : Error) × (h e m.1 ≡ x))
  caught-cases (ok a, w) f h e = inl (a, refl, e)
  caught-cases (err x, w) f h e = inr (x, e)

module _ ⦃p : Platform⦄ (laws : IsRedis) where
  open p use {F, Store}

  -- A step that returned, and the rest of the block.
  step-ok :
      {A C : Type 0} (m : Exec A) (f : A → Exec (Unit {0})) (w v : World)
      → ((a : A) (u : World) → m w ≡ (ok a, u) → f a u ≡ (ok tt, v) → C)
      → (m >>= f) w ≡ (ok tt, v)
      → C
  step-ok m f w v c h = let (a, u, e, rest) = bind-ok m f w h in c a u e rest

  -- The hash of the task has that status, and so has its row in the database, if there is one.
  abbrev pub AgreesOn : String → String → World → Type 0
  AgreesOn id status v = HasStatus laws id status v.redis × StatusIs status (row_of id v.statements)

  -- `save_execution` and the event, which end both ways of an execution.
  abbrev report : Job F → ℕ → String → Payload F → String → String → Payload F → Exec (Unit {0})
  report j n status x k et d =
      save_execution j.task_id j.correlation_id j.node_id status (p.datetime_at j.started_at)
        (p.datetime_at n) x
      >> announce k et j.correlation_id "executor-agent" d

  abbrev write_status : String → String → String → String → Exec (Unit {0})
  write_status id status k t = command (p.redis_hset (task id) (("status", status) ∷ (k, t) ∷ []))

  row_of-report :
      (id : String) (j : Job F) (n : ℕ) (status : String) (x : Payload F) (k et : String)
      (d : Payload F) (w : World)
      → row_of id (report j n status x k et d w).1.statements ≡ row_of id w.statements
  unfolding save_execution row_of
  row_of-report id j n status x k et d w =
      row_of-announce id k et j.correlation_id "executor-agent" d
        (save_execution j.task_id j.correlation_id j.node_id status (p.datetime_at j.started_at)
          (p.datetime_at n) x w).1

  statements-stored :
      (r : Result Store) (w u : World) → stored r w ≡ (ok tt, u) → u.statements ≡ w.statements
  statements-stored (ok s) w u h = sym (ap (λ x. x.1.statements) h)
  statements-stored (err e) w u h = cc

  report-status :
      (j : Job F) (n : ℕ) (status k t : String) (x : Payload F) (b et : String) (d : Payload F)
      (w v : World)
      → str_eq k "status" ≡ false
      → StatusIs status (row_of j.task_id w.statements)
      → (write_status j.task_id status k t >> report j n status x b et d) w ≡ (ok tt, v)
      → AgreesOn j.task_id status v
  report-status j n status k t x b et d w v ne row h =
      let id = j.task_id in
      let (_, u, a, rest) =
        bind-ok (write_status id status k t) (λ _. report j n status x b et d) w h in
      let m = ("status", status) ∷ (k, t) ∷ [] in
      let kept : row_of id w.statements ≡ row_of id v.statements =
        sym (ap (row_of id) (statements-stored (p.redis_hset (task id) m w.redis) w u a))
        ∙ sym (row_of-report id j n status x b et d u)
        ∙ ap (λ r. row_of id r.1.statements) rest in
      (
        status-after laws id status k t w u v ne a (
            redis-recorded laws id j.correlation_id j.node_id status "executor-agent"
              (p.datetime_at j.started_at) (p.datetime_at n) x d b et u v rest),
        subst (StatusIs status) kept row,
      )

  complete-status :
      (j : Job F) (n : ℕ) (w v : World) → complete j n w ≡ (ok tt, v) → AgreesOn j.task_id "done" v
  unfolding complete
  complete-status j n w v h =
      let x = field "adapter" (str "kubernetes-emulator") empty in
      let d = insert "finished_at" (str (p.isoformat (p.datetime_at n))) (
        insert "started_at" (str (p.isoformat (p.datetime_at j.started_at)))
          (insert "status" (str "done") j.payload)) in
      let rest =
        write_status j.task_id "done" "finished_at" (p.isoformat (p.datetime_at n))
        >> report j n "done" x "execution_done" "execution.done" d in
      let update = update_task j.task_id (("status", str "done") ∷ []) in
      step-ok (command (p.redis_srem (running j.node_id) j.task_id)) (λ _. update >> rest) w v
        (λ _ u _.
          step-ok update (λ _. rest) u v
            (λ _ u' e.
              report-status j n "done" "finished_at" (p.isoformat (p.datetime_at n)) x
                "execution_done" "execution.done" d u' v refl
                (StatusIs-update_task j.task_id "done" u u' e)))
        h

  recover-status :
      (j : Job F) (reserved : Bool) (x : Error) (w v : World)
      → recover j reserved x w ≡ (ok tt, v)
      → AgreesOn j.task_id "failed" v
  unfolding recover
  recover-status j reserved x w v h =
      let reason = p.show_error x in
      let d : ℕ → Payload F = λ n. insert "finished_at" (str (p.isoformat (p.datetime_at n))) (
        insert "started_at" (str (p.isoformat (p.datetime_at j.started_at)))
          (insert "reason" (str reason) (insert "status" (str "failed") j.payload))) in
      let rest : ℕ → Exec (Unit {0}) = λ n.
        write_status j.task_id "failed" "error" reason
        >> report j n "failed" (field "reason" (str reason) empty) "execution_failed"
            "execution.failed" (d n) in
      let update = update_task j.task_id (("status", str "failed") ∷ ("error", str reason) ∷ []) in
      let back = when reserved (release j) in
      step-ok reading (λ n. note_error reason >> (back >> (update >> rest n))) w v
        (λ n w1 _.
          step-ok (note_error reason) (λ _. back >> (update >> rest n)) w1 v
            (λ _ w2 _.
              step-ok back (λ _. update >> rest n) w2 v
                (λ _ w3 _.
                  step-ok update (λ _. rest n) w3 v
                    (λ _ w4 e.
                      report-status j n "failed" "error" reason (field "reason" (str reason) empty)
                        "execution_failed" "execution.failed" (d n) w4 v refl
                        (StatusIs-update_task_error j.task_id "failed" reason w3 w4 e)))))
        h

  -- The status that an execution leaves.
  abbrev pub IsFinal : String → World → Type 0
  IsFinal id v = AgreesOn id "done" v ⊎ AgreesOn id "failed" v

  attempt-IsFinal :
      (others : ℕ → Store → Store) (j : Job F) (w v : World)
      → attempt others j w ≡ (ok tt, v)
      → IsFinal j.task_id v
  unfolding attempt
  attempt-IsFinal others j w v h =
      let failed : (b : Bool) (x : Error) (u : World)
          → recover j b x u ≡ (ok tt, v)
          → IsFinal j.task_id v =
        λ b x u e. inr (recover-status j b x u v e) in
      elim (caught-cases (acquire j w)
        (λ _ u.
          caught (run others j u).0
            (λ n u'. caught (complete j n u').0 pure (recover j false) (complete j n u').1)
            (recover j true) (run others j u).1)
        (recover j false) h) [
          | inr (x, e) ↦ failed false x (acquire j w).1 e
          | inl (a, _, e) ↦
              elim (caught-cases (run others j (acquire j w).1)
                (λ n u'. caught (complete j n u').0 pure (recover j false) (complete j n u').1)
                (recover j true) e) [
                  | inr (x, e') ↦ failed true x (run others j (acquire j w).1).1 e'
                  | inl (n, _, e') ↦
                      elim (caught-cases (complete j n (run others j (acquire j w).1).1) pure
                        (recover j false) e') [
                          | inr (x, e'') ↦
                              failed false x (complete j n (run others j (acquire j w).1).1).1 e''
                          | inl (b, q, e'') ↦
                              inl (complete-status j n (run others j (acquire j w).1).1 v (q ∙ e''))
                        ]
                ]
        ]

  job-ok :
      (r q : Result String) (c : Result F) (m : Result ℤ)
      (make : String → String → ℕ → F → ℤ → Job F)
      → ((a b : String) (n : ℕ) (x : F) (y : ℤ) → (make a b n x y).task_id ≡ a)
      → (w : World) {j : Job F} {u : World}
      → (lift r >>= λ a.
            lift q >>= λ b. reading >>= λ n. lift c >>= λ x. lift m >>= λ y. pure (make a b n x y))
          w
        ≡ (ok j, u)
      → r ≡ ok j.task_id
  job-ok (ok a) (ok b) (ok x) (ok y) make same w h = cc (same a b w.readings x y)
  job-ok (ok a) (ok b) (ok x) (err e) make same w h = cc
  job-ok (ok a) (ok b) (err e) m make same w h = cc
  job-ok (ok a) (err e) c m make same w h = cc
  job-ok (err e) q c m make same w h = cc

  -- On a Redis that behaves as documented, whatever the other services do to Redis during the
  -- sleeps: if `execute_task` returns, without an error that escapes its `except` clause, then the
  -- payload named a task, the Redis that it leaves holds for that task a hash whose status is "done"
  -- or "failed", and the database has the same status in the row of the task, or has no such row.
  pub execute_task-IsFinal :
      (others : ℕ → Store → Store) (e : EventEnvelope F) (w v : World)
      → execute_task others e w ≡ (ok tt, v)
      → (id : String) × (item "task_id" e.payload ≡ ok id) × IsFinal id v
  unfolding execute_task start_job
  execute_task-IsFinal others e w v h =
      let (j, u, a, rest) = bind-ok (start_job e) (attempt others) w h in
      (
        j.task_id,
        job-ok _ _ _ _
            (λ task_id node_id started_at cpu ram. record {
              payload = e.payload;
              correlation_id = e.correlation_id;
              task_id = task_id;
              node_id = node_id;
              task_class = text_of (get_or "class" (str "standard") e.payload);
              started_at = started_at;
              cpu = cpu;
              ram = p.of_int ram;
            })
            (λ b c n x y. refl) w a,
        attempt-IsFinal others j u v rest,
      )
