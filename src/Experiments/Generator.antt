-- ===== src/Experiments/Generator.antt =====
-- services/load_generator/main.py: the scenarios, and one pass of `generator_loop`.
use Prim.Native.String.{◌++◌}
use cloud_multi_agent_manage.Prelude.{String, Option, none, some, false, str_eq, if◌then◌else◌}
use cloud_multi_agent_manage.Prelude.Int.{ℤ, pos}
use cloud_multi_agent_manage.Value.{Payload, int, str, bool, field, empty}
use cloud_multi_agent_manage.Key.{experiment_active}
use cloud_multi_agent_manage.Platform.{Platform, Result, ok, err}
use cloud_multi_agent_manage.Exec.{Exec, pure, query, ◌>>=◌}

module _ ⦃p : Platform⦄ where
  open p use {F}

  pub record Scenario : Type 0 where
    pub interval : F
    pub cpu : ℤ
    pub ram : ℤ
    pub duration : ℤ
    pub priority : ℤ

  abbrev scenario : F → ℤ → ℤ → ℤ → ℤ → Scenario
  scenario i c r d q = record { interval = i; cpu = c; ram = r; duration = d; priority = q }

  -- `SCENARIOS.get(scenario_name, SCENARIOS["normal"])`
  unfoldable pub scenario_of : String → Scenario
  scenario_of name =
      if str_eq name "peak"
      then scenario (p.lit 8 1) (pos 2) (pos 1024) (pos 5) (pos 4)
      else if str_eq name "overload"
      then scenario (p.lit 2 1) (pos 4) (pos 4096) (pos 8) (pos 7)
      else if str_eq name "node_failure"
      then scenario (p.lit 10 1) (pos 2) (pos 2048) (pos 6) (pos 5)
      else scenario (p.lit 20 1) (pos 1) (pos 512) (pos 3) (pos 2)

  unfoldable pub generated : String → Payload F
  unfolding scenario_of
  generated name =
      let s = scenario_of name in
      field "task_type" (str ("generated-" ++ name)) (
        field "cpu_required" (int s.cpu) (
          field "ram_required_mb" (int s.ram) (
            field "duration_seconds" (int s.duration) (
              field "priority" (int s.priority) (
                field "sla_deadline_seconds" (int (pos 20))
                  (field "requires_gpu" (bool false) empty))))))

  -- The seconds of the sleep that ends a pass.
  abbrev after_post : F → Result (Unit {0}) → Exec F
  after_post interval (ok u) w = pure interval w
  after_post interval (err x) w = pure interval (record w { last_error = some (p.show_error x) })

  abbrev pass : (Payload F → Result (Unit {0})) → Option String → Exec F
  pass post none = pure (p.of_int (pos 1))
  pass post (some name) =
      if str_eq name ""
      then pure (p.of_int (pos 1))
      else after_post (scenario_of name).interval (post (generated name))

  -- One pass of the loop; `post` is the request to the API.
  unfoldable pub generator_pass : (Payload F → Result (Unit {0})) → Exec F
  unfolding generated
  generator_pass post = query (p.redis_get experiment_active) >>= pass post
