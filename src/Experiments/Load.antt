-- ===== src/Experiments/Load.antt =====
-- scripts/run_experiments.py: SCENARIOS, `weighted_class` and `task_payload`. The numbers that the
-- random generator gives are arguments.
use cloud_multi_agent_manage.Prelude.{
  String, true, false, Option, none, some, List, [], ◌∷◌, str_eq, if◌then◌else◌,
}
use cloud_multi_agent_manage.Prelude.Int.{pos}
use cloud_multi_agent_manage.Value.{Payload, int, float, str, bool, field, empty, insert}
use cloud_multi_agent_manage.Platform.{Platform, Result, ok, err, runtime_error}

module _ ⦃p : Platform⦄ where
  open p use {F}

  pub record Settings : Type 0 where
    pub rps : F
    pub mix : List (String × F)
    pub fail_node : Option String

  abbrev pub normal : Settings
  normal = record {
    rps = p.lit 10 1;
    mix = ("standard", p.lit 7 1) ∷ ("cpu-heavy", p.lit 2 1) ∷ ("memory-heavy", p.lit 1 1) ∷ [];
    fail_node = none;
  }

  abbrev pub overload : Settings
  overload = record {
    rps = p.lit 50 1;
    mix =
        ("standard", p.lit 4 1)
        ∷ ("cpu-heavy", p.lit 3 1)
        ∷ ("memory-heavy", p.lit 2 1)
        ∷ ("critical", p.lit 1 1)
        ∷ [];
    fail_node = none;
  }

  abbrev pub gpu_shortage : Settings
  gpu_shortage = record {
    rps = p.lit 20 1;
    mix = ("gpu", p.lit 8 1) ∷ ("standard", p.lit 2 1) ∷ [];
    fail_node = none;
  }

  abbrev pub node_failure : Settings
  node_failure = record {
    rps = p.lit 20 1;
    mix = ("standard", p.lit 6 1) ∷ ("critical", p.lit 2 1) ∷ ("cpu-heavy", p.lit 2 1) ∷ [];
    fail_node = some "node-a";
  }

  -- SCENARIOS; "overload" and "peak" have the same settings.
  abbrev pub scenarios : List (String × Settings)
  scenarios =
      ("normal", normal)
      ∷ ("overload", overload)
      ∷ ("peak", overload)
      ∷ ("gpu_shortage", gpu_shortage)
      ∷ ("node_failure", node_failure)
      ∷ []

  -- The loop of `weighted_class`, from the sum of the weights so far.
  unfoldable pub weighted_from : F → F → List (String × F) → Option String
  weighted_from value cumulative [] = none
  weighted_from value cumulative ((task_class, weight) ∷ mix) =
      let cumulative' = p.add cumulative weight in
      let rest = weighted_from value cumulative' mix in
      if p.le value cumulative' then some task_class else rest

  -- `next(reversed(mix))`
  unfoldable pub last_class : List (String × F) → Result String
  last_class [] = err (runtime_error "StopIteration")
  last_class ((task_class, weight) ∷ []) = ok task_class
  last_class (x ∷ y ∷ mix) = last_class (y ∷ mix)

  unfoldable pub weighted_class : F → List (String × F) → Result String
  unfolding weighted_from last_class
  weighted_class value mix = elim (weighted_from value (p.lit 0 1) mix) [
    | some task_class ↦ ok task_class
    | none ↦ last_class mix
  ]

  -- The dict before its class is looked at; `duration` is `rng.uniform(0.5, 2.0)`.
  abbrev base_payload : String → F → Payload F
  base_payload task_class duration = field "task_type" (str task_class) (
      field "cpu_required" (int (pos 1)) (
        field "ram_required_mb" (int (pos 512)) (
          field "duration_seconds" (float duration) (
            field "priority" (int (pos 2)) (
              field "sla_deadline_seconds" (int (pos 20))
                (field "requires_gpu" (bool false) empty))))))

  unfoldable pub task_payload : String → F → Payload F
  unfolding insert
  task_payload task_class duration =
      let payload = base_payload task_class duration in
      if str_eq task_class "cpu-heavy"
      then insert "cpu_required" (int (pos 5)) payload
      else if str_eq task_class "memory-heavy"
      then insert "ram_required_mb" (int (pos 12288)) payload
      else if str_eq task_class "gpu"
      then insert "cpu_required" (int (pos 2)) (insert "requires_gpu" (bool true) payload)
      else if str_eq task_class "critical"
      then insert "sla_deadline_seconds" (int (pos 8)) (insert "priority" (int (pos 9)) payload)
      else payload
