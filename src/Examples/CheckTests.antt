-- ===== src/Examples/CheckTests.antt =====
-- The script that checks a running stack, against a stack that answers well, and the script of the
-- experiments against an API that does not.
use cloud_multi_agent_manage.Prelude.{
  ℕ, ◌≡◌, refl, String, true, none, List, [], ◌∷◌, In, ◌==◌, if◌then◌else◌,
}
use Prim.Native.String.{◌++◌ as join}
use cloud_multi_agent_manage.Prelude.Int.{pos}
use cloud_multi_agent_manage.Value.{Payload, str, dict, field, empty, lookup, get_or, is_empty}
use cloud_multi_agent_manage.Platform.{ok, err, value_error}
use cloud_multi_agent_manage.Checks.{
  Outside, Completed, main, checks, check_dependencies, check_services, check_event_flow,
  check_monitoring, contains, missing, poll, services, compose_services, ps_command,
}
use cloud_multi_agent_manage.Checks.Up.{IsListed, IsWell, IsFinished, main-zero}
use cloud_multi_agent_manage.Experiments.Load.{normal, weighted_class, weighted_from, last_class}
use cloud_multi_agent_manage.Experiments.Run.{
  Answers, stop_experiment, submit_load, submit_all, run_one, run_one-submit_load,
}
use cloud_multi_agent_manage.Examples.Toy.{toy}

abbrev completed : Completed
completed = record {
  returncode = pos 0;
  stdout = "request.created Ping succeeded PONG";
  stderr = "";
  lines = compose_services;
}

abbrev in_status : String → Payload ℕ
in_status s = field "status" (str s) empty

-- The test's task is running at the first reading, and done from the second on.
abbrev up : Outside ℕ
up = record {
  has_docker = true;
  run_command = λ command. ok completed;
  connect = λ host port. ok tt;
  get = λ url. ok (200, dict (in_status "ok"));
  get_plain = λ url. ok 200;
  post = λ task. ok (202, dict (field "task_id" (str "t1") empty));
  current = λ i task_id. ok (dict (in_status (if i == 0 then "running" else "done")));
}

main-up : main ⦃p = toy⦄ up ≡ 0
unfolding main checks check_dependencies check_services check_event_flow check_monitoring contains
    missing poll lookup get_or is_empty
main-up = refl

main-zero_example :
    ((c : Completed) × (up.run_command ps_command ≡ ok c)
      × ((s : String) → In s compose_services → IsListed ⦃p = toy⦄ c.lines s))
    × ((name url : String)
        → In (name, url) services
        → IsWell ⦃p = toy⦄ up (join url "/health") × IsWell ⦃p = toy⦄ up (join url "/ready"))
    × IsFinished ⦃p = toy⦄ up
main-zero_example = main-zero ⦃p = toy⦄ up main-up

-- The API takes the first task and fails at the second.
abbrev failing_api : Answers ℕ
failing_api = record {
  started = ok tt;
  submitted = λ i. if i == 0 then ok "t1" else err value_error;
  failed = ok tt;
  completed = ok tt;
  metrics = ok none;
  nodes = ok [];
  stopped = ok tt;
}

abbrev two_draws : List (ℕ × ℕ)
two_draws = (1000, 10000) ∷ (2000, 10000) ∷ []

submit_load-failing_api :
    (submit_load ⦃p = toy⦄ failing_api (normal ⦃p = toy⦄).mix two_draws "normal" "mas" []).0
    ≡ err value_error
unfolding submit_load submit_all weighted_class weighted_from last_class
submit_load-failing_api = refl

run_one-submit_load_example :
    let (r, calls) = run_one ⦃p = toy⦄ failing_api (λ l. 0) two_draws "normal" "mas" [] in
    (r ≡ err value_error) × (¬ In stop_experiment calls)
run_one-submit_load_example =
    run_one-submit_load ⦃p = toy⦄ failing_api (λ l. 0) two_draws "normal" "mas" (normal ⦃p = toy⦄)
      value_error refl submit_load-failing_api
