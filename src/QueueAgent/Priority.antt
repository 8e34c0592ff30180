-- ===== src/QueueAgent/Priority.antt =====
-- services/queue_agent/main.py: the class of a task and its dynamic priority.
use cloud_multi_agent_manage.Prelude.{String, Option, none, some, List, [], ◌∷◌, if◌then◌else◌}
use cloud_multi_agent_manage.Prelude.Int.{ℤ, pos, ◌+ℤ◌, leb_ℤ}
use cloud_multi_agent_manage.Value.{Payload, int, float, lookup, get_or}
use cloud_multi_agent_manage.Platform
use cloud_multi_agent_manage.Platform.{Platform, Result, ok, value_error}
use cloud_multi_agent_manage.Python.{
  float_of, int_of, truthy, min_F, max_F, is_text, is_true, get_nested, or_error,
}
use cloud_multi_agent_manage.Exec.{Exec, pure, lift, gets, ◌>>=◌, now}

-- `TASK_CLASSES`
abbrev pub task_classes : List String
task_classes = "standard" ∷ "cpu-heavy" ∷ "memory-heavy" ∷ "gpu" ∷ "critical" ∷ []

module _ ⦃p : Platform⦄ where
  open p use {F}

  unfoldable pub classify_size : F → Payload F → Result String
  classify_size cpu d =
      if p.le (p.of_int (pos 4)) cpu
      then ok "cpu-heavy"
      else Platform.◌>>=◌ (int_of (get_or "ram_required_mb" (int (pos 512)) d))
          λ ram. if leb_ℤ (pos 8192) ram then ok "memory-heavy" else ok "standard"

  unfoldable pub classify_resources : Payload F → Result String
  classify_resources d =
      if is_true (lookup "requires_gpu" d)
      then ok "gpu"
      else Platform.◌>>=◌ (float_of (get_or "cpu_required" (int (pos 1)) d))
          λ cpu. classify_size cpu d

  unfoldable pub classify : Payload F → Result String
  classify d =
      if is_text "critical" (lookup "task_type" d)
      then ok "critical"
      else Platform.◌>>=◌ (int_of (get_or "priority" (int (pos 1)) d))
          λ priority. if leb_ℤ (pos 9) priority then ok "critical" else classify_resources d

  -- `now or time.time()`: a given 0.0 counts as not given.
  unfoldable pub or_now : Option F → Exec F
  or_now none = now
  or_now (some t) = if truthy (float t) then pure t else now

  -- The value of `dynamic_priority`, from what it reads.
  unfoldable pub priority_at : F → F → F → ℤ → ℤ → F
  priority_at aging_factor created_at current base boost =
      let waited = max_F (p.lit 0 0) (p.subtract current created_at) in
      min_F (p.lit 20 0) (p.add (p.of_int (base +ℤ boost)) (p.times waited aging_factor))

  unfoldable pub dynamic_priority : Payload F → F → Option F → Exec F
  unfolding or_now
  dynamic_priority d created_at given = do
    config ← gets (λ w. w.config)
    aging_factor ← lift (
        float_of (get_nested config ("agents" ∷ "queue" ∷ "aging_factor" ∷ []) (float (p.lit 5 2))))
    current ← or_now given
    base ← lift (int_of (get_or "base_priority" (get_or "priority" (int (pos 1)) d) d))
    boost ← lift (int_of (get_or "sla_boost" (int (pos 0)) d))
    pure (priority_at aging_factor created_at current base boost)

  -- `int(min(10, score))`
  unfoldable pub capped_priority : F → Result ℤ
  capped_priority score =
      if p.lt score (p.of_int (pos 10)) then or_error (p.trunc score) value_error else ok (pos 10)
