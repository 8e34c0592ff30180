-- ===== src/SlaAgent/Violation.antt =====
-- services/sla_agent/main.py: `_parse_dt` and `actual_sla_violation`.
use cloud_multi_agent_manage.Prelude.{
  ℕ, String, Bool, false, not, Option, none, some, ◌&&◌, if◌then◌else◌,
}
use cloud_multi_agent_manage.Prelude.Int.{pos, ◌-ℤ◌}
use cloud_multi_agent_manage.Value.{Value, Payload, int, lookup, get_or}
use cloud_multi_agent_manage.Platform.{Platform, Result, ok, ◌>>=◌}
use cloud_multi_agent_manage.Python.{float_of, text_of, truthy, max_F}

-- `a or b` of datetimes, which are all true.
abbrev pub or_else : Option ℕ → ℕ → ℕ
or_else none b = b
or_else (some a) b = a

abbrev pub first_datetime : Option ℕ → Option ℕ → Option ℕ
first_datetime none b = b
first_datetime (some a) b = some a

module _ ⦃p : Platform⦄ where
  open p use {F}

  -- A missing key is None.
  abbrev pub parse_dt : Option (Value F) → Option ℕ
  parse_dt none = none
  parse_dt (some v) = if truthy v then p.parse_datetime (text_of v) else none

  -- `max(0.0, (end - start).total_seconds())`, where there is a start.
  abbrev pub elapsed : Option ℕ → ℕ → Option F
  elapsed none finish = none
  elapsed (some start) finish = some (max_F (p.lit 0 1) (p.total_seconds (pos finish -ℤ pos start)))

  abbrev pub exceeds : Option F → F → Bool
  exceeds none deadline = false
  exceeds (some x) deadline = p.lt deadline x

  abbrev pub or_zero : Option F → F
  or_zero none = p.lit 0 1
  or_zero (some x) = x

  pub record Violation : Type 0 where
    pub deadline : F
    pub wait_seconds : Option F
    pub execution_seconds : Option F
    pub severity : String

  unfoldable pub violation_of : F → Option F → Option F → Option Violation
  violation_of deadline wait execution =
      if not (exceeds wait deadline) && not (exceeds execution deadline)
      then none
      else some (record {
        deadline = deadline;
        wait_seconds = wait;
        execution_seconds = execution;
        severity =
            if p.lt (p.times deadline (p.of_int (pos 2))) (max_F (or_zero wait) (or_zero execution))
            then "critical"
            else "high";
      })

  unfoldable pub actual_sla_violation : Payload F → ℕ → Result (Option Violation)
  unfolding violation_of
  actual_sla_violation t current = do
    deadline ← float_of (get_or "sla_deadline_seconds" (int (pos 30)) t)
    let created_at =
        first_datetime (parse_dt (lookup "created_at" t)) (parse_dt (lookup "created_at_iso" t))
    let started_at = parse_dt (lookup "started_at" t)
    let finished_at = parse_dt (lookup "finished_at" t)
    let wait_seconds = elapsed created_at (or_else started_at current)
    let execution_seconds = elapsed started_at (or_else finished_at current)
    ok (violation_of deadline wait_seconds execution_seconds)
