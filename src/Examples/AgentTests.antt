-- ===== src/Examples/AgentTests.antt =====
-- The theorems on the agents at concrete inputs of the toy platform.
use cloud_multi_agent_manage.Prelude.{
  ℕ, ◌≡◌, refl, true, false, none, some, [], ◌∷◌, String, arith, In, keep, ap,
}
use cloud_multi_agent_manage.Prelude.Int.{pos}
use cloud_multi_agent_manage.Value.{
  Payload, null, str, int, float, field, empty, lookup, Hash, of_hash, get_or,
}
use cloud_multi_agent_manage.Key.{
  task, node, running, classified, sla, decision_made, last_action_ts, experiment_mode,
}
use cloud_multi_agent_manage.Platform.{ok}
use cloud_multi_agent_manage.Platform.Laws.{hash, get_entry, string, set}
use cloud_multi_agent_manage.Platform.Results.{is_ok}
use cloud_multi_agent_manage.Python.{get_nested}
use cloud_multi_agent_manage.Exec.{World}
use cloud_multi_agent_manage.Examples.Toy.{toy}
use cloud_multi_agent_manage.Examples.ToyRedis.{toy-IsRedis}
use cloud_multi_agent_manage.Examples.ToyFloat.{toy-IsFloat, toy-IsRounding}
use cloud_multi_agent_manage.Examples.Tests.{note, world}
use cloud_multi_agent_manage.SlaAgent.Risk.{Assessment, assessment, assess_risk}
use cloud_multi_agent_manage.SlaAgent.Handlers.{publish_risk}
use cloud_multi_agent_manage.SlaAgent.KeyClash.{decide-publish_risk}
use cloud_multi_agent_manage.SlaAgent.Bounds.{IsRisk, assess_risk-IsRisk}
use cloud_multi_agent_manage.Coordinator.Utility.{utility, utility_breakdown, total}
use cloud_multi_agent_manage.Coordinator.Ranking.{sorted_reverse, place}
use cloud_multi_agent_manage.Coordinator.Proposals.{degrade_proposals, is_safe}
use cloud_multi_agent_manage.Coordinator.NodeKeys.{degrade_proposals-err}
use cloud_multi_agent_manage.Coordinator.Decide.{decide, Signals, select, keyed, decide_scale}
use cloud_multi_agent_manage.Coordinator.Selection.{select-best, utility_of, NamesSafeNode}
use cloud_multi_agent_manage.Coordinator.Decided.{redis-decide_scale}
use cloud_multi_agent_manage.ResourceAgent.Score.{
  Score, score_node, score_if_room, balance_of, fit_of,
}
use cloud_multi_agent_manage.ResourceAgent.Room.{Reads, HasRoom, score_node-HasRoom}
use cloud_multi_agent_manage.ScaleAgent.Handlers.{
  find_idle, idle_candidate, is_idle, scale_out, cooldown_seconds,
}
use cloud_multi_agent_manage.ScaleAgent.Safety.{redis-scale_out_cooling}

abbrev pub some_task : Payload ℕ
some_task = field "task_id" (str "t1") (field "cpu_required" (int (pos 1)) empty)

abbrev risky : Assessment ⦃p = toy⦄
risky = record {
  estimated_wait = 300000;
  deadline = 300000;
  risk = 10000;
  severity = "critical";
  recommendation = "scale";
  unsafe = true;
}

decide-publish_risk_example :
    is_ok
      (decide ⦃p = toy⦄ "t1" "c1"
        (publish_risk ⦃p = toy⦄ note risky
          (pos 10)
          "t1"
          (world ((classified "t1", string "{}") ∷ []))).1).0
    ≡ false
decide-publish_risk_example =
    decide-publish_risk ⦃p = toy⦄ toy-IsRedis note risky (pos 10) "t1" "c1" "{}"
      (field "task_id" (str "t1") empty) (world ((classified "t1", string "{}") ∷ []))
      (toy-IsRedis.view-write_ne (sla "t1") (classified "t1") (string "{}") [] (λ h. cc))
      (toy-IsRedis.view-write_ne (decision_made "t1") (classified "t1") (string "{}") [] (λ h. cc))
      (toy-IsRedis.view-write_self (classified "t1") (string "{}") []) refl refl

degrade_proposals-err_example :
    is_ok (degrade_proposals ⦃p = toy⦄ some_task (world ((running "n1", set ("t9" ∷ [])) ∷ []))).0
    ≡ false
degrade_proposals-err_example =
    degrade_proposals-err ⦃p = toy⦄ toy-IsRedis some_task "n1" "t9" []
      (world ((running "n1", set ("t9" ∷ [])) ∷ []))
      (toy-IsRedis.view-write_self (running "n1") (set ("t9" ∷ [])) [])

abbrev running_hash : Hash
running_hash = ("status", "running") ∷ ("node_id", "n1") ∷ ("class", "critical") ∷ []

abbrev big_node : Payload ℕ
big_node = field "node_id" (str "n1") (
    field "cpu_total" (str "8") (
      field "ram_total_mb" (str "1024")
        (field "cpu_used" (str "0") (field "ram_used_mb" (str "0") empty))))

abbrev big_score : Score ⦃p = toy⦄
big_score = record {
  node_id = str "n1";
  fit_score = 7812;
  balance_score = 10000;
  cost = 6250;
  cpu_utilization_after = 1250;
  ram_utilization_after = 5000;
}

score_node-HasRoom_example :
    (r : Reads ⦃p = toy⦄ big_node some_task) × HasRoom ⦃p = toy⦄ big_node some_task r
unfolding score_node score_if_room balance_of fit_of lookup get_or
score_node-HasRoom_example = score_node-HasRoom ⦃p = toy⦄ big_node some_task big_score refl

abbrev idle_hash : Hash
idle_hash = ("node_id", "node-auto-1") ∷ ("cpu_used", "0") ∷ ("ram_used_mb", "0") ∷ []

abbrev idle_world : World ⦃p = toy⦄
idle_world = world ((node "node-auto-1", hash idle_hash) ∷ [])

find_idle-idle_world :
    find_idle ⦃p = toy⦄ (node "node-auto-1" ∷ []) idle_world
    ≡ (ok (some (node "node-auto-1", "node-auto-1")), idle_world)
unfolding find_idle idle_candidate is_idle lookup get_or of_hash
find_idle-idle_world = ground (
  arith,
  toy-IsRedis.view-write_self (node "node-auto-1") (hash idle_hash) [],
  toy-IsRedis.view-write_ne (running "node-auto-1") (node "node-auto-1") (hash idle_hash) []
      (λ h. cc),
)

abbrev cooling_world : World ⦃p = toy⦄
cooling_world = record (world ((last_action_ts, string "5") ∷ [])) { readings = 7 }

redis-scale_out_cooling_example :
    (scale_out ⦃p = toy⦄ "c1" some_task cooling_world).1.redis ≡ cooling_world.redis
unfolding cooldown_seconds get_nested
redis-scale_out_cooling_example =
    redis-scale_out_cooling ⦃p = toy⦄ "c1" "5" none some_task (pos 7) (pos 5) (pos 30) cooling_world
      refl (ap get_entry (toy-IsRedis.view-write_self last_action_ts (string "5") []))
      (ap get_entry
        (toy-IsRedis.view-write_ne experiment_mode last_action_ts (string "5") [] (λ h. cc)))
      refl refl refl refl refl

abbrev assessed : Assessment ⦃p = toy⦄
assessed = assessment ⦃p = toy⦄ 0 300000 333

assess_risk-IsRisk_example : IsRisk ⦃p = toy⦄ toy-IsFloat toy-IsRounding assessed
unfolding get_or lookup assess_risk
assess_risk-IsRisk_example =
    assess_risk-IsRisk ⦃p = toy⦄ toy-IsFloat toy-IsRounding some_task assessed refl

abbrev candidate : String → ℕ → Payload ℕ
candidate node_id fit = field "node_id" (str node_id) (field "fit_score" (float fit) empty)

abbrev signals : Signals ℕ
signals = record {
  task_id = "t1";
  correlation_id = "c1";
  payload = some_task;
  sla_signal = none;
  forecast_signal = none;
  is_baseline = false;
  candidates = candidate "n1" 4000 ∷ candidate "n2" 8000 ∷ [];
}

leb_self : (u : ℕ) → toy.le u u ≡ true
leb_self u = ground arith

select-best_example :
    (u : ℕ) × (utility_of ⦃p = toy⦄ null signals (candidate "n2" 8000) ≡ ok u)
    × In (candidate "n2" 8000) signals.candidates
    × NamesSafeNode ⦃p = toy⦄ (candidate "n2" 8000)
    × ((x : Payload ℕ) (v : ℕ)
        → In x signals.candidates
        → is_safe ⦃p = toy⦄ x ≡ true
        → utility_of ⦃p = toy⦄ null signals x ≡ ok v
        → toy.lt u v ≡ false)
unfolding select keyed sorted_reverse place utility utility_breakdown total keep is_safe lookup
    get_or get_nested
select-best_example =
    select-best ⦃p = toy⦄ toy-IsFloat null signals (candidate "n2" 8000) refl
      (λ x u _ _. leb_self u) refl

redis-decide_scale_example :
    (decide_scale ⦃p = toy⦄ signals (world ((task "t1", hash []) ∷ []))).1.redis
    ≡ (task "t1", hash []) ∷ []
redis-decide_scale_example =
    redis-decide_scale ⦃p = toy⦄ signals (world ((task "t1", hash []) ∷ []))
