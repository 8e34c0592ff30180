-- ===== src/Database/Statuses.antt =====
-- The status in a task's row after the statements that a service sends.
use cloud_multi_agent_manage.Prelude.{
  ℕ, String, ◌≡◌, ◌⊎◌, refl, sym, ap, ◌∙◌, subst, inl, inr, Option, none, some, List, [], ◌∷◌,
  arith, eq_refl,
}
use cloud_multi_agent_manage.Value.{Value, Payload, str, is_empty}
use cloud_multi_agent_manage.Platform.{Platform, ok}
use cloud_multi_agent_manage.Persistence.{update_task}
use cloud_multi_agent_manage.Statement.{Statement}
use cloud_multi_agent_manage.Runtime.{announce}
use cloud_multi_agent_manage.Exec.{World}
use cloud_multi_agent_manage.Database.{TaskRow, row_of, set_columns, updated}

module _ {F : Type 0} where
  -- Either the table has no such task, or its row has that status.
  abbrev pub StatusIs : String → Option (TaskRow F) → Type 0
  StatusIs status o = (o ≡ none) ⊎ ((r : TaskRow F) × (o ≡ some r) × (r.status ≡ str status))

  pub StatusIs-updated :
      (status : String) (values : List (String × Value F)) (n : ℕ) (o : Option (TaskRow F))
      → ((r : TaskRow F) → (set_columns values r).status ≡ str status)
      → StatusIs status (updated values n o)
  StatusIs-updated status values n none h = inl refl
  StatusIs-updated status values n (some r) h =
      inr (record (set_columns values r) { updated_at = n }, refl, h r)

  pub row_of-update_task :
      (id : String) (values : List (String × Value F)) (n : ℕ) (l : List (Statement F))
      → row_of id (Statement.update_task values n id ∷ l) ≡ updated values n (row_of id l)
  unfolding row_of
  row_of-update_task id values n l = rw (eq_refl id) refl

module _ ⦃p : Platform⦄ where
  open p use {F}

  -- An `update_task` of the status, and of the error beside it.
  pub StatusIs-update_task :
      (id status : String) (w u : World)
      → update_task id (("status", str status) ∷ []) w ≡ (ok tt, u)
      → StatusIs status (row_of id u.statements)
  unfolding update_task set_columns is_empty
  StatusIs-update_task id status w u h =
      let values : List (String × Value F) = ("status", str status) ∷ [] in
      let n = p.datetime_at w.readings in
      subst (StatusIs status)
        (sym (row_of-update_task id values n w.statements) ∙ ap (λ x. row_of id x.1.statements) h)
        (StatusIs-updated status values n (row_of id w.statements) (λ r. refl))

  pub StatusIs-update_task_error :
      (id status reason : String) (w u : World)
      → update_task id (("status", str status) ∷ ("error", str reason) ∷ []) w ≡ (ok tt, u)
      → StatusIs status (row_of id u.statements)
  unfolding update_task set_columns is_empty
  StatusIs-update_task_error id status reason w u h =
      let values : List (String × Value F) = ("status", str status) ∷ ("error", str reason) ∷ [] in
      let n = p.datetime_at w.readings in
      subst (StatusIs status)
        (sym (row_of-update_task id values n w.statements) ∙ ap (λ x. row_of id x.1.statements) h)
        (StatusIs-updated status values n (row_of id w.statements) (λ r. refl))

  -- Neither an execution nor an event changes a row of `tasks`.
  pub row_of-announce :
      (id topic_key event_type cid source : String) (d : Payload F) (w : World)
      → row_of id (announce topic_key event_type cid source d w).1.statements
        ≡ row_of id w.statements
  unfolding announce row_of
  row_of-announce id topic_key event_type cid source d w = ground arith
