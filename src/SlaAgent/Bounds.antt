-- ===== src/SlaAgent/Bounds.antt =====
-- What the risk and the violations mean.
use cloud_multi_agent_manage.Prelude.{
  ℕ, String, ◌≡◌, refl, Bool, true, false, ◌||◌, Option, none, some, arith, subst, ◌≤◌, str_eq,
  if◌then◌else◌,
}
use cloud_multi_agent_manage.Value.{Payload}
use cloud_multi_agent_manage.Platform.{Platform, Result, ok, err, ◌>>=◌}
use cloud_multi_agent_manage.Platform.Floats.{IsFloat, IsRounding}
use cloud_multi_agent_manage.SlaAgent.Risk.{
  Assessment, assessment, estimate, assess_risk, risk_severity, clamp_risk,
}
use cloud_multi_agent_manage.SlaAgent.Violation.{Violation, violation_of, exceeds}

-- The severities in their order.
abbrev pub level : String → ℕ
level s =
    if str_eq s "critical"
    then 3
    else if str_eq s "high"
    then 2
    else if str_eq s "medium"
    then 1
    else 0

module _ ⦃p : Platform⦄ where
  open p use {F}

  abbrev pub is_some : Option Violation → Bool
  is_some none = false
  is_some (some v) = true

  -- A violation is reported exactly when the waiting time or the execution time is known and longer
  -- than the deadline.
  pub violation_of-exceeds :
      (deadline : F) (wait execution : Option F)
      → is_some (violation_of deadline wait execution)
        ≡ (exceeds wait deadline || exceeds execution deadline)
  unfolding violation_of
  violation_of-exceeds deadline wait execution = ground arith

  level_of_tests :
      (a b c : Bool)
      → level (if a then "critical" else if b then "high" else if c then "medium" else "low")
        ≡ (if a then 3 else if b then 2 else if c then 1 else 0)
  level_of_tests true b c = refl
  level_of_tests false true c = refl
  level_of_tests false false true = refl
  level_of_tests false false false = refl

  level-risk_severity :
      (x : F)
      → level (risk_severity x) ≡ (
          if p.le (p.lit 95 2) x
          then 3
          else if p.le (p.lit 8 1) x
          then 2
          else if p.le (p.lit 5 1) x
          then 1
          else 0)
  unfolding risk_severity
  level-risk_severity x =
      level_of_tests (p.le (p.lit 95 2) x) (p.le (p.lit 8 1) x) (p.le (p.lit 5 1) x)

  ok_inj : {a b : Assessment} → ok a ≡ ok b → a ≡ b
  ok_inj h = cc

  module _ (laws : IsFloat) where
    open laws use {le_trans, lt-le, le_of_not-lt, lit_num, zero-le-one}

    -- Whatever the estimate, nan included.
    clamp_risk_bounds :
        (x : F)
        → (p.le (p.lit 0 1) (clamp_risk x) ≡ true) × (p.le (clamp_risk x) (p.lit 10 1) ≡ true)
    unfolding clamp_risk
    clamp_risk_bounds x = ground (
      arith,
      lt-le (p.lit 0 1) x,
      lt-le x (p.lit 10 1),
      lt-le (p.lit 0 1) (p.lit 10 1),
      lit_num 0 1,
      lit_num 10 1,
      zero-le-one,
    )

    module _ (rounding : IsRounding) where
      open rounding use {round4_mono, round4_zero, round4_one}

      -- The bounds of a risk that is reported.
      abbrev pub IsRisk : Assessment → Type 0
      IsRisk a = (p.le (p.lit 0 1) a.risk ≡ true) × (p.le a.risk (p.lit 10 1) ≡ true)

      assessment-IsRisk : (wait deadline x : F) → IsRisk (assessment wait deadline (clamp_risk x))
      assessment-IsRisk wait deadline x =
          let (a, b) = clamp_risk_bounds x in
          (
            rw round4_zero at (round4_mono (p.lit 0 1) (clamp_risk x) a),
            rw round4_one at (round4_mono (clamp_risk x) (p.lit 10 1) b),
          )

      -- The end of `assess_risk`.
      bounded-IsRisk :
          (r : Result (F × F × F)) (a : Assessment)
          → (r >>= λ q. ok (assessment q.0 q.1 (clamp_risk q.2))) ≡ ok a
          → IsRisk a
      bounded-IsRisk (ok (wait, deadline, x)) a h =
          subst IsRisk (ok_inj h) (assessment-IsRisk wait deadline x)
      bounded-IsRisk (err e) a h = cc

      -- Every assessment that `assess_risk` returns reports a risk between 0 and 1, whatever the queue, the
      -- durations and the deadline of the task are, nan included.
      pub assess_risk-IsRisk : (t : Payload F) (a : Assessment) → assess_risk t ≡ ok a → IsRisk a
      unfolding assess_risk
      assess_risk-IsRisk t a h = bounded-IsRisk (estimate t) a h

    -- A higher risk never has a lower severity.
    pub risk_severity_mono :
        (a b : F) → p.le a b ≡ true → level (risk_severity a) ≤ level (risk_severity b)
    risk_severity_mono a b h = ground (
      arith,
      level-risk_severity a,
      level-risk_severity b,
      le_trans (p.lit 95 2) a b,
      le_trans (p.lit 8 1) a b,
      le_trans (p.lit 5 1) a b,
    )
