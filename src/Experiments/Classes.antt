-- ===== src/Experiments/Classes.antt =====
-- The tasks that the experiments submit, and the classes that the queue agent gives them.
use Prim.Native.String.{◌++◌}
use text.Mathlib.Text.{starts_with}
use text.Mathlib.TextPositions.{starts_with-append}
use cloud_multi_agent_manage.Prelude.{
  String, ◌≡◌, refl, inl, inr, true, false, some, List, [], ◌∷◌, In, All, ap, sym, ◌∙◌, map, arith,
  str_eq, eq_iff, Bool-cases, Option-cases, if◌then◌else◌,
}
use cloud_multi_agent_manage.Value.{lookup, get_or, insert}
use cloud_multi_agent_manage.Platform.{Platform, ok}
use cloud_multi_agent_manage.Platform.Floats.{IsExact}
use cloud_multi_agent_manage.Python.{is_one_of}
use cloud_multi_agent_manage.QueueAgent.Priority.{
  task_classes, classify, classify_resources, classify_size,
}
use cloud_multi_agent_manage.Experiments.Load.{
  Settings, scenarios, weighted_from, last_class, weighted_class, task_payload,
}
use cloud_multi_agent_manage.Experiments.Generator.{generated, scenario_of}

not_critical : (name : String) → str_eq ("generated-" ++ name) "critical" ≡ false
not_critical name = elim (Bool-cases (str_eq ("generated-" ++ name) "critical")) [
  | inl e ↦
      let q : "generated-" ++ name ≡ "critical" = (eq_iff ("generated-" ++ name) "critical").0 e in
      let b : starts_with "critical" "generated-" ≡ true =
        rw q at (starts_with-append "generated-" name) in
      cc
  | inr e ↦ e
]

In-is_one_of : (c : String) (l : List String) → is_one_of c l ≡ true → In c l
In-is_one_of c [] h = cc
In-is_one_of c (x ∷ l) h = elim (Bool-cases (str_eq c x)) [
  | inl e ↦ inl ((eq_iff c x).0 e)
  | inr e ↦ inr (In-is_one_of c l (ground arith))
]

In-All : (c : String) (l ks : List String) → All (λ x. is_one_of x ks ≡ true) l → In c l → In c ks
In-All c [] ks a i = absurd i
In-All c (x ∷ l) ks (a, rest) (inl e) = In-is_one_of c ks (rw e a)
In-All c (x ∷ l) ks (a, rest) (inr i) = In-All c l ks rest i

module _ ⦃p : Platform⦄ where
  open p use {F}

  weighted_from-In :
      (value cumulative : F) (mix : List (String × F)) (c : String)
      → weighted_from value cumulative mix ≡ some c
      → In c (map (λ e. e.0) mix)
  unfolding weighted_from
  weighted_from-In value cumulative [] c h = cc
  weighted_from-In value cumulative ((k, w) ∷ mix) c h =
      elim (Bool-cases (p.le value (p.add cumulative w))) [
        | inl e ↦ inl (ground arith)
        | inr e ↦ inr (weighted_from-In value (p.add cumulative w) mix c (ground arith))
      ]

  last_class-In :
      (x : String × F) (mix : List (String × F))
      → (c : String) × (last_class (x ∷ mix) ≡ ok c) × In c (map (λ e. e.0) (x ∷ mix))
  unfolding last_class
  last_class-In x [] = (x.0, refl, inl refl)
  last_class-In x (y ∷ mix) = let (c, e, i) = last_class-In y mix in (c, e, inr i)

  -- A mix that is not empty gives one of its classes, whatever number is drawn.
  weighted_class-In :
      (value : F) (x : String × F) (mix : List (String × F))
      → (c : String) × (weighted_class value (x ∷ mix) ≡ ok c) × In c (map (λ e. e.0) (x ∷ mix))
  unfolding weighted_class
  weighted_class-In value x mix = elim (Option-cases (weighted_from value (p.lit 0 1) (x ∷ mix))) [
    | inl e ↦ let (c, l, i) = last_class-In x mix in (c, rw (weighted_class, e) l, i)
    | inr (c, e) ↦
        (c, rw (weighted_class, e) refl, weighted_from-In value (p.lit 0 1) (x ∷ mix) c e)
  ]

  module _ (exact : IsExact) where
    open exact use {of_int-le}

    classify-task_payload :
        (c : String) (duration : F) → In c task_classes → classify (task_payload c duration) ≡ ok c
    unfolding classify classify_resources classify_size task_payload lookup get_or insert
    classify-task_payload c duration (inl e) =
        rw e (ground (arith, of_int-le 4 1 (omega arith) (omega arith)))
    classify-task_payload c duration (inr (inl e)) =
        rw e (ground (arith, of_int-le 4 5 (omega arith) (omega arith)))
    classify-task_payload c duration (inr (inr (inl e))) =
        rw e (ground (arith, of_int-le 4 1 (omega arith) (omega arith)))
    classify-task_payload c duration (inr (inr (inr (inl e)))) = rw e refl
    classify-task_payload c duration (inr (inr (inr (inr (inl e))))) = rw e refl
    classify-task_payload c duration (inr (inr (inr (inr (inr i))))) = absurd i

    -- What a mix of known classes submits is classified as drawn.
    classify-mix :
        (value duration : F) (x : String × F) (mix : List (String × F))
        → All (λ k. is_one_of k task_classes ≡ true) (map (λ e. e.0) (x ∷ mix))
        → (c : String) × (weighted_class value (x ∷ mix) ≡ ok c)
          × (classify (task_payload c duration) ≡ ok c)
    classify-mix value duration x mix a =
        let (c, e, i) = weighted_class-In value x mix in
        let known = In-All c (map (λ e. e.0) (x ∷ mix)) task_classes a i in
        (c, e, classify-task_payload c duration known)

    -- In every scenario of the experiments, whatever numbers are drawn, a class is drawn, and the
    -- queue agent gives the task that is submitted for it that very class.
    pub classify-weighted_class :
        (name : String) (s : Settings) (value duration : F)
        → In (name, s) scenarios
        → (c : String) × (weighted_class value s.mix ≡ ok c)
          × (classify (task_payload c duration) ≡ ok c)
    classify-weighted_class name s value duration (inl e) =
        rw (ap (λ x. x.1) e) (classify-mix value duration _ _ (refl, (refl, (refl, tt))))
    classify-weighted_class name s value duration (inr (inl e)) =
        rw (ap (λ x. x.1) e) (classify-mix value duration _ _ (refl, (refl, (refl, (refl, tt)))))
    classify-weighted_class name s value duration (inr (inr (inl e))) =
        rw (ap (λ x. x.1) e) (classify-mix value duration _ _ (refl, (refl, (refl, (refl, tt)))))
    classify-weighted_class name s value duration (inr (inr (inr (inl e)))) =
        rw (ap (λ x. x.1) e) (classify-mix value duration _ _ (refl, (refl, tt)))
    classify-weighted_class name s value duration (inr (inr (inr (inr (inl e))))) =
        rw (ap (λ x. x.1) e) (classify-mix value duration _ _ (refl, (refl, (refl, tt))))
    classify-weighted_class name s value duration (inr (inr (inr (inr (inr i))))) = absurd i

    classify-fields :
        (name : String) → str_eq name "overload" ≡ false → classify (generated name) ≡ ok "standard"
    unfolding classify classify_resources classify_size generated scenario_of lookup get_or
    classify-fields name h = ground (
      arith,
      not_critical name,
      of_int-le 4 1 (omega arith) (omega arith),
      of_int-le 4 2 (omega arith) (omega arith),
    )

    -- The load generator's tasks are CPU-heavy in the overload scenario and standard in every other,
    -- whatever the text of the scenario is.
    pub classify-generated :
        (name : String)
        → classify (generated name)
          ≡ ok (if str_eq name "overload" then "cpu-heavy" else "standard")
    unfolding classify classify_resources classify_size generated scenario_of lookup get_or
    classify-generated name = elim (Bool-cases (str_eq name "overload")) [
      | inl e ↦
          let q : name ≡ "overload" = (eq_iff name "overload").0 e in
          rw q (ground (arith, of_int-le 4 4 (omega arith) (omega arith)))
      | inr e ↦
          classify-fields name e ∙ ap (λ b. ok (if b then "cpu-heavy" else "standard")) (sym e)
    ]
