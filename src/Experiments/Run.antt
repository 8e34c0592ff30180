-- ===== src/Experiments/Run.antt =====
-- scripts/run_experiments.py: `submit_load` and `run_one`, as the requests that they send. What the API
-- and the database answer is an argument, and so are the draws of the random generator, one for each
-- pass that the duration of the load allows.
use cloud_multi_agent_manage.Prelude.{
  ℕ, suc, ◌≡◌, refl, inl, inr, String, Option, none, some, List, [], ◌∷◌, length, In, str_eq,
  if◌then◌else◌,
}
use cloud_multi_agent_manage.Prelude.Int.{pos}
use cloud_multi_agent_manage.Value.{Payload, int, str, float, field, empty, insert, merge}
use cloud_multi_agent_manage.Platform.{Platform, Error, Result, ok, err, key_error}
use cloud_multi_agent_manage.Experiments.Load.{Settings, scenarios, weighted_class, task_payload}
use cloud_multi_agent_manage.Experiments.Metrics.{node_metrics}

-- A request: the requests of `wait_for_completion` and the statements of `collect_db_metrics` are one
-- each.
pub data Call (F : Type 0) : Type 0 where
  start_experiment : String → String → Call F
  submit : Payload F → Call F
  fail_node : String → Call F
  await_completion : List String → Call F
  query_database : List String → Call F
  list_nodes : Call F
  stop_experiment : Call F

-- What is answered. `submitted i` is the task_id of the i-th task, or the error of its request or of
-- `raise_for_status`.
pub record Answers (F : Type 0) : Type 0 where
  pub started : Result (Unit {0})
  pub submitted : ℕ → Result String
  pub failed : Result (Unit {0})
  pub completed : Result (Unit {0})
  pub metrics : Result (Option (Payload F))
  pub nodes : Result (List (Payload F))
  pub stopped : Result (Unit {0})

-- The result and the requests sent, the newest first.
abbrev pub Session : Type 0 → Type 0 → Type 0
Session F A = List (Call F) → Result A × List (Call F)

module _ {F A : Type 0} where
  abbrev pub pure : A → Session F A
  pure a l = (ok a, l)

  abbrev pub lift : Result A → Session F A
  lift r l = (r, l)

  abbrev pub ask : Call F → Result A → Session F A
  ask c r l = (r, c ∷ l)

module _ {F A B : Type 0} where
  abbrev pub continue : Result A → (A → Session F B) → Session F B
  continue (ok a) f l = f a l
  continue (err e) f l = (err e, l)

  infixl 5 ◌>>=◌ ◌>>◌
  abbrev pub ◌>>=◌ : Session F A → (A → Session F B) → Session F B
  ◌>>=◌ m f l = let (r, l') = m l in continue r f l'

  abbrev pub ◌>>◌ : Session F A → Session F B → Session F B
  m >> k = m >>= λ _. k

module _ ⦃p : Platform⦄ where
  open p use {F}

  -- The loop of `submit_load`: the draws for the class and for the duration of each task.
  unfoldable pub submit_all :
      Answers F → List (String × F) → ℕ → List (F × F) → Session F (List String)
  submit_all api mix i [] = pure []
  submit_all api mix i ((value, duration) ∷ draws) =
      lift (weighted_class value mix) >>= λ task_class.
      ask (submit (task_payload task_class duration)) (api.submitted i) >>= λ task_id.
      submit_all api mix (suc i) draws >>= λ rest. pure (task_id ∷ rest)

  unfoldable pub submit_load :
      Answers F → List (String × F) → List (F × F) → String → String → Session F (List String)
  unfolding submit_all
  submit_load api mix draws scenario mode =
      ask (start_experiment scenario mode) api.started >> submit_all api mix 0 draws

  -- `SCENARIOS[scenario]`
  abbrev pub settings_of : String → List (String × Settings) → Result Settings
  settings_of scenario [] = err (key_error scenario)
  settings_of scenario ((name, s) ∷ l) =
      let rest = settings_of scenario l in if str_eq name scenario then ok s else rest

  abbrev fail_if : Answers F → Option String → Session F (Unit {0})
  fail_if api none = pure tt
  fail_if api (some node) = ask (fail_node node) api.failed

  -- `db_metrics or {…}`
  abbrev or_zeros : Option (Payload F) → Payload F
  or_zeros (some m) = m
  or_zeros none =
      let zero_metric = float (p.lit 0 1) in
      field "average_wait_seconds" zero_metric (
        field "p95_wait_seconds" zero_metric (
          field "sla_violations_percent" zero_metric (
            field "messages_per_task" zero_metric (
              field "average_decision_latency_ms" zero_metric
                (field "scaling_actions_count" zero_metric empty)))))

  abbrev with_load : F × F → Payload F → Payload F
  with_load (cpu, imbalance) m =
      insert "resource_imbalance_index" (float imbalance)
        (insert "average_cpu_utilization" (float cpu) m)

  abbrev row : String → String → List String → Payload F → Payload F
  row scenario mode submitted metrics =
      merge
        (field "scenario" (str scenario)
          (field "mode" (str mode) (field "tasks" (int (pos (length submitted))) empty)))
        metrics

  unfoldable pub run_one :
      Answers F → (List F → F) → List (F × F) → String → String → Session F (Payload F)
  unfolding submit_load
  run_one api fmean draws scenario mode = lift (settings_of scenario scenarios) >>= λ settings.
      submit_load api settings.mix draws scenario mode >>= λ submitted.
      fail_if api settings.fail_node >>= λ _.
      ask (await_completion submitted) api.completed >>= λ _.
      ask (query_database submitted) api.metrics >>= λ db_metrics.
      ask list_nodes api.nodes >>= λ nodes. lift (node_metrics fmean nodes) >>= λ load.
      ask stop_experiment api.stopped >>= λ _.
      pure (row scenario mode submitted (with_load load (or_zeros db_metrics)))

  -- A step after which no stop was asked for, whichever way it ends.
  continue-In :
      {A B : Type 0} (r : Result A) (f : A → Session F B) (l l' : List (Call F))
      → ((a : A) → In stop_experiment (f a l).1 → In stop_experiment l')
      → (In stop_experiment l → In stop_experiment l')
      → In stop_experiment (continue r f l).1
      → In stop_experiment l'
  continue-In (ok a) f l l' good bad m = good a m
  continue-In (err x) f l l' good bad m = bad m

  In-submit :
      (d : Payload F) (l : List (Call F)) → In stop_experiment (submit d ∷ l) → In stop_experiment l
  In-submit d l (inl e) = cc
  In-submit d l (inr m) = m

  -- The loop asks for no stop.
  submit_all-In :
      (api : Answers F) (mix : List (String × F)) (i : ℕ) (draws : List (F × F)) (l : List (Call F))
      → In stop_experiment (submit_all api mix i draws l).1
      → In stop_experiment l
  unfolding submit_all
  submit_all-In api mix i [] l m = m
  submit_all-In api mix i ((value, duration) ∷ draws) l m =
      continue-In (weighted_class value mix) _ l l
        (λ task_class.
          let d = task_payload task_class duration in
          continue-In (api.submitted i) _ (submit d ∷ l) l
            (λ task_id.
              let (r, after) = submit_all api mix (suc i) draws (submit d ∷ l) in
              let back : In stop_experiment after → In stop_experiment l =
                λ k. In-submit d l (submit_all-In api mix (suc i) draws (submit d ∷ l) k) in
              continue-In r _ after l (λ rest. back) back)
            (In-submit d l))
        (λ k. k) m

  -- Where a submission fails, the experiment is not stopped: `run_one` raises that error, and the
  -- requests that it has sent hold none that stops the experiment.
  pub run_one-submit_load :
      (api : Answers F) (fmean : List F → F) (draws : List (F × F)) (scenario mode : String)
      (s : Settings) (x : Error)
      → settings_of scenario scenarios ≡ ok s
      → (submit_load api s.mix draws scenario mode []).0 ≡ err x
      → let (r, calls) = run_one api fmean draws scenario mode [] in
        (r ≡ err x) × (¬ In stop_experiment calls)
  unfolding run_one submit_load
  run_one-submit_load api fmean draws scenario mode s x e h =
      rw (e, h)
        (
          refl,
          λ m.
              let first : In stop_experiment (start_experiment scenario mode ∷ []) =
                continue-In api.started _ (start_experiment scenario mode ∷ [])
                  (start_experiment scenario mode ∷ [])
                  (λ u. submit_all-In api s.mix 0 draws (start_experiment scenario mode ∷ []))
                  (λ k. k) m in
              elim first [ inl q ↦ cc | inr n ↦ n ],
        )
