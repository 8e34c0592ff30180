-- ===== src/Checks/Up.antt =====
-- The exit code 0 of scripts/validate_runtime.py against what the services answered.
use Prim.Native.String.{String, ◌++◌}
use cloud_multi_agent_manage.Prelude.{
  ℕ, ◌≡◌, refl, sym, ap, ◌∙◌, subst, arith, inl, inr, Bool, true, Option, none, some, List, [], ◌∷◌,
  In, str_eq, eq_iff, Bool-cases, ◌==◌, ◌||◌, ◌&&◌, not, if◌then◌else◌,
}
use cloud_multi_agent_manage.Value.{Value, Payload, dict, str, lookup, get_or, is_empty}
use cloud_multi_agent_manage.Platform.{Platform, Result, ok, err, key_error}
use cloud_multi_agent_manage.Python.{is_text, text_of, or_error}
use cloud_multi_agent_manage.Checks.{
  Outside, Completed, services, compose_services, check_http, is_running, missing, none_missing,
  ps_command, is_success, check_services, check_event_flow, checks, check_dependencies,
  check_monitoring, check_compose_config, validation_task, main, well, accepted, followed,
}
use cloud_multi_agent_manage.Checks.Passed.{is_text-str, IsDoneWithin, poll-IsDoneWithin}

parts : (a s t m : Bool) → (a && s && t && m) ≡ true → (s ≡ true) × (t ≡ true)
parts a s t m q = (ground (arith, q), ground (arith, q))

exit_zero :
    (a b c : Bool)
    → ◌≡◌ {A = ℕ} (if not a then 1 else if not b then 1 else if c then 0 else 1) 0
    → (b ≡ true) × (c ≡ true)
exit_zero a b c h = (ground (arith, h), ground (arith, h))

module _ ⦃p : Platform⦄ where
  open p use {F}

  -- The address answers with a success and says that its status is "ok".
  abbrev pub IsWell : Outside F → String → Type 0
  IsWell o url =
      (status : ℕ) × (d : Payload F) × (o.get url ≡ ok (status, dict d))
      × (is_success status ≡ true)
      × (lookup "status" d ≡ some (str "ok"))

  -- One of the running services that docker lists, a line each.
  abbrev pub IsListed : List String → String → Type 0
  IsListed lines s = (line : String) × In line lines × (p.strip line ≡ s)

  -- The task of the test was accepted, and within sixty readings it was done.
  abbrev pub IsFinished : Outside F → Type 0
  IsFinished o =
      (status : ℕ) × (d : Payload F) × (v : Value F) × (o.post validation_task
        ≡ ok (status, dict d))
      × ((status == 200 || status == 202) ≡ true)
      × (lookup "task_id" d ≡ some v)
      × IsDoneWithin (λ i. o.current i (text_of v)) 0 60

  status-ok :
      (d : Payload F)
      → is_text "ok" (some (get_or "status" (str "unknown") d)) ≡ true
      → lookup "status" d ≡ some (str "ok")
  unfolding get_or
  status-ok d h = known (lookup "status" d) h
    where
      known :
          (o : Option (Value F))
          → is_text "ok" (some (elim o [ none ↦ str "unknown" | some x ↦ x ])) ≡ true
          → o ≡ some (str "ok")
      known none h = cc
      known (some v) h = ap some (is_text-str "ok" v h)

  check_http-IsWell : (o : Outside F) (url : String) → check_http o url ≡ true → IsWell o url
  check_http-IsWell o url h = well-IsWell (o.get url) refl h
    where
      well-IsWell : (r : Result (ℕ × Value F)) → o.get url ≡ r → well r ≡ true → IsWell o url
      well-IsWell (err x) e h = cc
      well-IsWell (ok (s, dict d)) e h =
          (s, d, e, ground (arith, h), status-ok d (ground (arith, h)))
      well-IsWell (ok (s, Value.null)) e h = cc
      well-IsWell (ok (s, Value.bool b)) e h = cc
      well-IsWell (ok (s, Value.int z)) e h = cc
      well-IsWell (ok (s, Value.float x)) e h = cc
      well-IsWell (ok (s, str t)) e h = cc
      well-IsWell (ok (s, Value.list l)) e h = cc

  check_services-IsWell :
      (o : Outside F) (l : List (String × String)) (name url : String)
      → check_services o l ≡ true
      → In (name, url) l
      → IsWell o (url ++ "/health") × IsWell o (url ++ "/ready")
  unfolding check_services
  check_services-IsWell o [] name url h m = absurd m
  check_services-IsWell o ((n, u) ∷ l) name url h (inl e) =
      let same : u ≡ url = ap (λ x. x.1) (sym e) in
      subst (λ x. IsWell o (x ++ "/health") × IsWell o (x ++ "/ready")) same
        (
          check_http-IsWell o (u ++ "/health") (ground (arith, h)),
          check_http-IsWell o (u ++ "/ready") (ground (arith, h)),
        )
  check_services-IsWell o ((n, u) ∷ l) name url h (inr m) =
      check_services-IsWell o l name url (ground (arith, h)) m

  is_running-IsListed :
      (lines : List String) (s : String) → is_running lines s ≡ true → IsListed lines s
  is_running-IsListed [] s h = cc
  is_running-IsListed (x ∷ lines) s h = elim (Bool-cases (str_eq (p.strip x) s)) [
    | inl e ↦ (x, inl refl, (eq_iff (p.strip x) s).0 e)
    | inr e ↦ let (y, m, q) = is_running-IsListed lines s (ground (arith, h, e)) in (y, inr m, q)
  ]

  missing-IsListed :
      (lines l : List String) (s : String)
      → is_empty (missing lines l) ≡ true
      → In s l
      → IsListed lines s
  unfolding missing is_empty
  missing-IsListed lines [] s h m = absurd m
  missing-IsListed lines (x ∷ l) s h m = elim (Bool-cases (is_running lines x)) [
    | inl e ↦ elim m [
      | inl same ↦ is_running-IsListed lines s (ap (is_running lines) same ∙ e)
      | inr rest ↦ missing-IsListed lines l s (ground (arith, h, e)) rest
    ]
    | inr e ↦ absurd (ground (arith, h, e))
  ]

  none_missing-IsListed :
      (r : Result Completed)
      → none_missing r ≡ true
      → (c : Completed) × (r ≡ ok c) × ((s : String) → In s compose_services → IsListed c.lines s)
  none_missing-IsListed (err x) h = cc
  none_missing-IsListed (ok c) h =
      let e : is_empty (missing c.lines compose_services) ≡ true = ground (arith, h) in
      (c, refl, λ s m. missing-IsListed c.lines compose_services s e m)

  accepted-IsFinished :
      (o : Outside F) (r : Result (ℕ × Value F))
      → o.post validation_task ≡ r
      → accepted o r ≡ true
      → IsFinished o
  accepted-IsFinished o (err x) e h = cc
  accepted-IsFinished o (ok (s, dict d)) e h =
      let task : followed o (or_error (lookup "task_id" d) (key_error "task_id")) ≡ true =
        ground (arith, h) in
      named (lookup "task_id" d) refl task
    where
      named :
          (u : Option (Value F))
          → lookup "task_id" d ≡ u
          → followed o (or_error u (key_error "task_id")) ≡ true
          → IsFinished o
      named none q f = cc
      named (some v) q f = (
        s,
        d,
        v,
        e,
        ground (arith, h),
        q,
        poll-IsDoneWithin (λ i. o.current i (text_of v)) 0 60 f,
      )
  accepted-IsFinished o (ok (s, Value.null)) e h = ground (arith, h)
  accepted-IsFinished o (ok (s, Value.bool b)) e h = ground (arith, h)
  accepted-IsFinished o (ok (s, Value.int z)) e h = ground (arith, h)
  accepted-IsFinished o (ok (s, Value.float x)) e h = ground (arith, h)
  accepted-IsFinished o (ok (s, str t)) e h = ground (arith, h)
  accepted-IsFinished o (ok (s, Value.list l)) e h = ground (arith, h)

  -- If the script exits with 0, then docker listed every service of the stack as running, each of the
  -- nine services of the program answered its health and its readiness with a success and the status
  -- "ok", and the API accepted the task of the test, which was done within sixty readings and neither
  -- done nor failed in those before.
  pub main-zero :
      (o : Outside F)
      → main o ≡ 0
      → ((c : Completed) × (o.run_command ps_command ≡ ok c)
          × ((s : String) → In s compose_services → IsListed c.lines s))
        × ((name url : String)
            → In (name, url) services
            → IsWell o (url ++ "/health") × IsWell o (url ++ "/ready"))
        × IsFinished o
  unfolding main checks check_event_flow
  main-zero o h =
      let (listed, all) =
        exit_zero (check_compose_config o) (none_missing (o.run_command ps_command)) (checks o) h in
      let (served, done) =
        parts (check_dependencies o) (check_services o services) (check_event_flow o)
          (check_monitoring o) all in
      let (c, e, every) = none_missing-IsListed (o.run_command ps_command) listed in
      (
        (c, e, every),
        λ name url m. check_services-IsWell o services name url served m,
        accepted-IsFinished o (o.post validation_task) refl done,
      )
