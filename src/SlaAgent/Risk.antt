-- ===== src/SlaAgent/Risk.antt =====
-- services/sla_agent/main.py: `risk_severity` and `assess_risk`.
use cloud_multi_agent_manage.Prelude.{String, Bool, ◌||◌, str_eq, if◌then◌else◌}
use cloud_multi_agent_manage.Prelude.Int.{pos}
use cloud_multi_agent_manage.Value.{Payload, bool, int, float, str, get_or, field, empty}
use cloud_multi_agent_manage.Platform.{Platform, Result, ok, ◌>>=◌}
use cloud_multi_agent_manage.Python.{float_of, int_of, min_F, max_F, true_divide}

module _ ⦃p : Platform⦄ where
  open p use {F}

  unfoldable pub risk_severity : F → String
  risk_severity risk =
      if p.le (p.lit 95 2) risk
      then "critical"
      else if p.le (p.lit 8 1) risk
      then "high"
      else if p.le (p.lit 5 1) risk
      then "medium"
      else "low"

  abbrev pub recommendation_of : String → String
  recommendation_of severity =
      if str_eq severity "critical"
      then "scale"
      else if str_eq severity "high" || str_eq severity "medium"
      then "boost"
      else "observe"

  pub record Assessment : Type 0 where
    pub estimated_wait : F
    pub deadline : F
    pub risk : F
    pub severity : String
    pub recommendation : String
    pub unsafe : Bool

  -- `min(1.0, max(0.0, …))`
  unfoldable pub clamp_risk : F → F
  clamp_risk x = min_F (p.lit 10 1) (max_F (p.lit 0 1) x)

  abbrev pub assessment : F → F → F → Assessment
  assessment estimated_wait deadline risk =
      let severity = risk_severity risk in
      record {
        estimated_wait = p.round4 estimated_wait;
        deadline = deadline;
        risk = p.round4 risk;
        severity = severity;
        recommendation = recommendation_of severity;
        unsafe = str_eq severity "critical";
      }

  -- What `assess_risk` reads and divides: the wait, the deadline, and the risk before it is clamped.
  unfoldable pub estimate : Payload F → Result (F × F × F)
  estimate t = do
    queue_length ← int_of (get_or "queue_length" (int (pos 0)) t)
    duration ← float_of (get_or "duration_seconds" (int (pos 1)) t)
    deadline ← float_of (get_or "sla_deadline_seconds" (int (pos 30)) t)
    estimated_wait ←
        float_of (get_or "estimated_wait" (float (p.times (p.of_int queue_length) (p.lit 5 1))) t)
    ratio ← true_divide (p.add estimated_wait duration) (max_F deadline (p.lit 1 3))
    ok (estimated_wait, deadline, ratio)

  unfoldable pub assess_risk : Payload F → Result Assessment
  unfolding estimate clamp_risk risk_severity
  assess_risk t = do q ← estimate t; ok (assessment q.0 q.1 (clamp_risk q.2))

  -- The dict that `assess_risk` returns, as it is spread into a payload.
  abbrev pub assessment_fields : Assessment → Payload F
  assessment_fields a = field "estimated_wait" (float a.estimated_wait) (
      field "deadline" (float a.deadline) (
        field "risk" (float a.risk) (
          field "severity" (str a.severity) (
            field "recommendation" (str a.recommendation) (field "unsafe" (bool a.unsafe) empty)))))
