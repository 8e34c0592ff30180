-- ===== src/Coordinator/Decide.antt =====
-- services/coordinator_agent/main.py: `build_explanation`, `publish_scale` and `decide`.
use cloud_multi_agent_manage.Prelude.{
  String, Bool, true, false, not, Option, none, some, List, [], ◌∷◌, ◌&&◌, str_eq, length, keep,
  if◌then◌else◌,
}
use cloud_multi_agent_manage.Prelude.Int.{pos}
use cloud_multi_agent_manage.Value.{
  Value, Payload, null, int, float, str, bool, dict, field, empty, lookup, get_or, insert, merge,
  is_empty,
}
use cloud_multi_agent_manage.Key.{task, classified, sla, forecast, decision_made, experiment_mode}
use cloud_multi_agent_manage.Platform
use cloud_multi_agent_manage.Platform.{Platform, Result, ok, err}
use cloud_multi_agent_manage.Python.{float_of, is_true, item}
use cloud_multi_agent_manage.Persistence.{update_task, save_decision}
use cloud_multi_agent_manage.Runtime.{announce}
use cloud_multi_agent_manage.Exec.{
  Exec, pure, lift, gets, query, ◌>>=◌, ◌>>◌, command, overwrite, when, now,
}
use cloud_multi_agent_manage.Coordinator.Utility.{
  is_given, utility_breakdown, utility, breakdown_fields, should_scale_for_sla,
}
use cloud_multi_agent_manage.Coordinator.Ranking.{sorted_reverse}
use cloud_multi_agent_manage.Coordinator.Proposals.{
  load_payload, load_proposals, degrade_proposals, is_safe,
}

-- What `decide` has read when it looks for a node.
pub record Signals (F : Type 0) : Type 0 where
  pub task_id : String
  pub correlation_id : String
  pub payload : Payload F
  pub sla_signal : Option (Payload F)
  pub forecast_signal : Option (Payload F)
  pub is_baseline : Bool
  pub candidates : List (Payload F)

-- `ranked[0]`, of a list that may be empty.
abbrev pub first_of_ranked : {K A : Type 0} → List (K × A) → Option A
first_of_ranked [] = none
first_of_ranked (x ∷ xs) = some x.1

module _ ⦃p : Platform⦄ where
  open p use {F}

  abbrev breakdown_of : Value F → Option (Payload F) → Signals F → Result (Payload F)
  breakdown_of config none s = ok empty
  breakdown_of config (some d) s =
      Platform.◌>>=◌ (utility_breakdown config d s.sla_signal s.forecast_signal)
        λ b. ok (breakdown_fields b)

  abbrev is_degraded : Option (Payload F) → Bool
  is_degraded none = false
  is_degraded (some d) = is_true (lookup "degraded" d)

  unfoldable pub build_explanation :
      Value F → String → Option (Payload F) → Signals F → String → Result (Payload F)
  build_explanation config decision_type selected s reason =
      Platform.◌>>=◌ (breakdown_of config selected s) λ breakdown. ok (
        field "reason" (str reason) (
          field "used_signals"
            (dict (
              field "task" (bool (is_given (some s.payload))) (
                field "proposals" (int (pos (length s.candidates))) (
                  field "sla" (bool (is_given s.sla_signal)) (
                    field "forecast" (bool (is_given s.forecast_signal))
                      (field "degraded" (bool (is_degraded selected)) empty))))))
            (field "utility_breakdown" (dict breakdown)
              (field "decision_type" (str decision_type) empty))))

  unfoldable pub scale_payload : Payload F → Payload F → Bool → Bool → Payload F
  scale_payload t explanation advisory requeue_after_scale =
      insert "requeue_after_scale" (bool requeue_after_scale) (
        insert "advisory" (bool advisory)
          (insert "recommended_nodes" (int (pos 1)) (merge t explanation)))

  unfoldable pub publish_scale : Payload F → String → Payload F → F → Bool → Bool → Exec (Unit {0})
  publish_scale t correlation_id explanation utility_value advisory requeue_after_scale = do
    task_id ← lift (item "task_id" t)
    let payload = scale_payload t explanation advisory requeue_after_scale
    announce "decision_scale" "decision.scale" correlation_id "coordinator-agent" payload
    save_decision task_id correlation_id null utility_value "scale" payload
    when (not advisory && not requeue_after_scale)
        (overwrite (p.redis_setex (decision_made task_id) "scale" (pos 3600)))

  -- The key of the baseline mode is the pair of the fit and the negated cost.
  abbrev lt_pair : F × F → F × F → Bool
  lt_pair (a, b) (c, d) = if p.le a c && p.le c a then p.lt b d else p.lt a c

  baseline_key : Payload F → Result (F × F)
  baseline_key d = Platform.◌>>=◌ (float_of (get_or "fit_score" (float (p.lit 0 1)) d)) λ fit.
      Platform.◌>>=◌ (float_of (get_or "cost" (float (p.lit 0 1)) d))
        λ cost. ok (fit, p.subtract (p.lit 0 0) cost)

  -- `key=…` of each item, in order; the first that fails ends the sort.
  unfoldable pub keyed :
      {K : Type 0} → (Payload F → Result K) → List (Payload F) → Result (List (K × Payload F))
  keyed key [] = ok []
  keyed key (d ∷ ds) =
      Platform.◌>>=◌ (key d) λ k. Platform.◌>>=◌ (keyed key ds) λ rest. ok ((k, d) ∷ rest)

  -- `ranked[0]`
  unfoldable pub select : Value F → Signals F → List (Payload F) → Result (Option (Payload F))
  unfolding keyed sorted_reverse baseline_key
  select config s safe =
      if s.is_baseline
      then (Platform.◌>>=◌ (keyed baseline_key safe)
          λ ks. ok (first_of_ranked (sorted_reverse lt_pair ks)))
      else (Platform.◌>>=◌ (keyed (λ d. utility config d s.sla_signal s.forecast_signal) safe)
          λ ks. ok (first_of_ranked (sorted_reverse p.lt ks)))

  -- The branch without a safe proposal: ask for a node, and leave the task undecided.
  unfoldable pub decide_scale : Signals F → Exec (Unit {0})
  unfolding publish_scale build_explanation
  decide_scale s = do
    config ← gets (λ w. w.config)
    explanation ← lift (build_explanation config "scale" none s "no_safe_nodes_available")
    publish_scale s.payload s.correlation_id explanation (p.lit 0 1) false true

  abbrev reason_of : Payload F → Bool → String
  reason_of selected scale =
      if is_true (lookup "degraded" selected)
      then "degraded_policy_no_agent_proposals"
      else if scale
      then "high_sla_risk_dispatch_with_advisory_scale"
      else "best_utility"

  -- `{**task, **selected, "utility": …, **explanation}`
  unfoldable pub dispatch_payload : Payload F → Payload F → F → Payload F → Payload F
  dispatch_payload t selected utility_value explanation =
      merge (insert "utility" (float utility_value) (merge t selected)) explanation

  -- The advisory request for a node that follows a dispatch under a high risk.
  unfoldable pub advise_scale : Signals F → Payload F → F → Exec (Unit {0})
  unfolding publish_scale build_explanation
  advise_scale s selected utility_value = do
    config ← gets (λ w. w.config)
    explanation ←
        lift (build_explanation config "scale" (some selected) s "high_sla_risk_advisory_scale")
    publish_scale s.payload s.correlation_id explanation utility_value true false

  -- The end of `decide`: the marker, and the advice after it.
  unfoldable pub mark_dispatched : Signals F → Payload F → F → Bool → Exec (Unit {0})
  unfolding advise_scale
  mark_dispatched s selected utility_value scale = do
    overwrite (p.redis_setex (decision_made s.task_id) "dispatch" (pos 3600))
    when scale (advise_scale s selected utility_value)

  -- `dispatch` up to the marker: the utility, and whether to ask for a node as well.
  unfoldable pub announce_dispatch : Signals F → Payload F → Exec (F × Bool)
  unfolding dispatch_payload build_explanation update_task announce save_decision
  announce_dispatch s selected = do
    config ← gets (λ w. w.config)
    utility_value ← lift (utility config selected s.sla_signal s.forecast_signal)
    let scale = should_scale_for_sla s.sla_signal
    explanation ←
        lift (build_explanation config "dispatch" (some selected) s (reason_of selected scale))
    let payload = dispatch_payload s.payload selected utility_value explanation
    node_id ← lift (item "node_id" selected)
    update_task s.task_id (("status", str "dispatched") ∷ ("assigned_node_id", str node_id) ∷ [])
    command (p.redis_hset (task s.task_id) (("status", "dispatched") ∷ ("node_id", node_id) ∷ []))
    announce "decision_dispatch" "decision.dispatch" s.correlation_id "coordinator-agent" payload
    save_decision s.task_id s.correlation_id (get_or "node_id" null selected) utility_value
        "dispatch" payload
    pure (utility_value, scale)

  unfoldable pub dispatch : Signals F → Payload F → Exec (Unit {0})
  unfolding announce_dispatch mark_dispatched
  dispatch s selected = announce_dispatch s selected >>= λ q. mark_dispatched s selected q.0 q.1

  -- From the signals on.
  unfoldable pub decide_on : Signals F → Exec (Unit {0})
  unfolding select decide_scale dispatch
  decide_on s = do
    config ← gets (λ w. w.config)
    selected ← lift (select config s (keep is_safe s.candidates))
    elim selected [ none ↦ decide_scale s | some d ↦ dispatch s d ]

  abbrev pub is_baseline_mode : Option String → Bool
  is_baseline_mode none = false
  is_baseline_mode (some m) = str_eq m "baseline"

  abbrev pub unless_baseline : Bool → Option (Payload F) → Option (Payload F)
  unless_baseline true d = none
  unless_baseline false d = d

  unfoldable pub decide_task : String → String → Payload F → Exec (Unit {0})
  decide_task task_id correlation_id t = do
    clock ← now
    lift (float_of (get_or "classified_at_ts" (float clock) t))
    sla_signal ← load_payload (sla task_id)
    forecast_signal ← load_payload (forecast task_id)
    mode ← query (p.redis_get experiment_mode)
    loaded ← load_proposals task_id
    candidates ← (if is_empty loaded then degrade_proposals t else pure loaded)
    decide_on (record {
      task_id = task_id;
      correlation_id = correlation_id;
      payload = t;
      sla_signal = unless_baseline (is_baseline_mode mode) sla_signal;
      forecast_signal = unless_baseline (is_baseline_mode mode) forecast_signal;
      is_baseline = is_baseline_mode mode;
      candidates = candidates;
    })

  abbrev pub is_set : Option String → Bool
  is_set none = false
  is_set (some t) = not (str_eq t "")

  unfoldable pub decide : String → String → Exec (Unit {0})
  decide task_id correlation_id = do
    made ← query (p.redis_get (decision_made task_id))
    if is_set made then pure tt else do
      t ← load_payload (classified task_id)
      elim t [ none ↦ pure tt | some d ↦ decide_task task_id correlation_id d ]
