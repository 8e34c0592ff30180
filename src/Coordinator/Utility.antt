-- ===== src/Coordinator/Utility.antt =====
-- services/coordinator_agent/main.py: `utility_breakdown`, `utility`, `should_scale_for_sla`.
use cloud_multi_agent_manage.Prelude.{
  String, Bool, true, false, Option, none, some, [], ◌∷◌, ◌||◌, str_eq, if◌then◌else◌,
}
use cloud_multi_agent_manage.Prelude.Int.{pos}
use cloud_multi_agent_manage.Value.{Value, Payload, float, str, dict, field, empty, get_or}
use cloud_multi_agent_manage.Platform.{Platform, Result, ok, err, attribute_error, ◌>>=◌}
use cloud_multi_agent_manage.Python.{float_of, text_of, get_nested}

-- `x or {}`
abbrev pub or_empty : {F : Type 0} → Option (Payload F) → Payload F
or_empty none = empty
or_empty (some d) = d

-- `bool(x)` of an optional dict.
abbrev pub is_given : {F : Type 0} → Option (Payload F) → Bool
is_given none = false
is_given (some empty) = false
is_given (some (field k v d)) = true

module _ ⦃p : Platform⦄ where
  open p use {F}

  pub record Breakdown : Type 0 where
    pub fit : F
    pub sla : F
    pub balance : F
    pub forecast : F
    pub cost : F

  abbrev weight : String → F → Value F → Result F
  weight k fallback (dict d) = float_of (get_or k (float fallback) d)
  weight k fallback _ = err attribute_error

  abbrev negate : F → F
  negate x = p.subtract (p.lit 0 0) x

  unfoldable pub utility_breakdown :
      Value F → Payload F → Option (Payload F) → Option (Payload F) → Result Breakdown
  utility_breakdown config proposal sla forecast = do
    let weights = get_nested config ("agents" ∷ "coordinator" ∷ "weights" ∷ []) (dict empty)
    fit ← float_of (get_or "fit_score" (float (p.lit 0 1)) proposal)
    risk ←
        float_of
          (get_or "sla_risk" (get_or "risk" (float (p.lit 2 1)) (or_empty sla)) (or_empty sla))
    balance ← float_of (get_or "balance_score" (float (p.lit 5 1)) proposal)
    overload ← float_of (get_or "overload_risk" (float (p.lit 2 1)) (or_empty forecast))
    cost ← float_of (get_or "cost" (float (p.lit 1 1)) proposal)
    w_fit ← weight "fit" (p.lit 35 2) weights
    w_sla ← weight "sla" (p.lit 25 2) weights
    w_balance ← weight "balance" (p.lit 2 1) weights
    w_forecast ← weight "forecast" (p.lit 1 1) weights
    w_cost ← weight "cost" (p.lit 1 1) weights
    ok (record {
      fit = p.round4 (p.times w_fit fit);
      sla = p.round4 (p.times w_sla (p.subtract (p.of_int (pos 1)) risk));
      balance = p.round4 (p.times w_balance balance);
      forecast = p.round4 (p.times w_forecast (p.subtract (p.of_int (pos 1)) overload));
      cost = p.round4 (p.times (negate w_cost) cost);
    })

  -- `sum` adds from the left, from 0.
  unfoldable pub total : Breakdown → F
  total b =
      p.add (p.add (p.add (p.add (p.add (p.of_int (pos 0)) b.fit) b.sla) b.balance) b.forecast)
        b.cost

  unfoldable pub utility : Value F → Payload F → Option (Payload F) → Option (Payload F) → Result F
  unfolding utility_breakdown total
  utility config proposal sla forecast = do
    b ← utility_breakdown config proposal sla forecast
    ok (p.round4 (total b))

  -- The dict of the breakdown, as it stands in an explanation.
  abbrev pub breakdown_fields : Breakdown → Payload F
  breakdown_fields b = field "fit" (float b.fit) (
      field "sla" (float b.sla) (
        field "balance" (float b.balance)
          (field "forecast" (float b.forecast) (field "cost" (float b.cost) empty))))

  unfoldable pub should_scale_for_sla : Option (Payload F) → Bool
  should_scale_for_sla sla =
      if is_given sla
      then (let severity =
            text_of (
              get_or "sla_severity" (get_or "severity" (str "low") (or_empty sla))
                (or_empty sla)) in
          let recommendation = text_of (get_or "recommendation" (str "") (or_empty sla)) in
          (str_eq severity "high" || str_eq severity "critical") || str_eq recommendation "scale")
      else false
