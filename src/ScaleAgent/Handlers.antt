-- ===== src/ScaleAgent/Handlers.antt =====
-- services/scale_agent/main.py: `scale_out`, `scale_in` and the handler of `decision.scale`.
use cloud_multi_agent_manage.Prelude.{
  ℕ, String, Bool, true, false, not, Option, none, some, List, [], ◌∷◌, ◌&&◌, str_eq, ◌==◌,
  if◌then◌else◌,
}
use cloud_multi_agent_manage.Prelude.Int.{ℤ, pos, ◌+ℤ◌, ◌-ℤ◌, ltb_ℤ}
use cloud_multi_agent_manage.Value.{
  Value, Payload, Hash, null, int, str, dict, empty, lookup, get_or, insert, of_hash,
}
use cloud_multi_agent_manage.Key.{
  Key, node, running, experiment_mode, last_action_ts, auto_node_sequence, auto_nodes,
}
use cloud_multi_agent_manage.Platform.{
  Platform, Error, Result, ok, err, value_error, attribute_error,
}
use cloud_multi_agent_manage.Message.{EventEnvelope}
use cloud_multi_agent_manage.Python.{
  float_of, int_of, text_of, is_true, get_nested, or_error, replace_dots, is_zero,
}
use cloud_multi_agent_manage.Runtime.{announce}
use cloud_multi_agent_manage.Exec.{
  World, Exec, pure, lift, gets, query, ◌>>=◌, ◌>>◌, command, overwrite, now, caught, or_raise,
}
use Prim.Native.String.{◌++◌}

-- `mode != "baseline"`
abbrev pub is_adaptive : Option String → Bool
is_adaptive none = true
is_adaptive (some mode) = not (str_eq mode "baseline")

module _ ⦃p : Platform⦄ where
  open p use {F, Store}

  unfoldable pub cooldown_seconds : Exec ℤ
  cooldown_seconds w = (
    int_of (get_nested w.config ("agents" ∷ "scale" ∷ "cooldown_seconds" ∷ []) (int (pos 30))),
    w,
  )

  unfoldable pub publish_scaling : String → String → Payload F → Exec (Unit {0})
  unfolding announce
  publish_scaling event_type correlation_id d =
      announce (replace_dots event_type) event_type correlation_id "scale-agent" d

  unfoldable pub blocked : String → Payload F → String → Exec (Unit {0})
  unfolding publish_scaling
  blocked correlation_id d reason =
      publish_scaling "scaling.blocked" correlation_id (insert "reason" (str reason) d)

  -- `int(float(last))` of a time that was stored.
  abbrev pub stored_time : String → Result ℤ
  stored_time t = elim (p.parse_float t) [
    | none ↦ err value_error
    | some x ↦ or_error (p.trunc x) value_error
  ]

  abbrev within_cooldown : ℤ → String → Exec Bool
  within_cooldown clock last = do
    before ← lift (stored_time last)
    cooldown ← cooldown_seconds
    pure (ltb_ℤ (clock -ℤ before) cooldown)

  -- The test of `scale_out`; an empty text counts as no last action.
  unfoldable pub in_cooldown : ℤ → Option String → Option String → Exec Bool
  in_cooldown clock none mode = pure false
  in_cooldown clock (some last) mode =
      if is_adaptive mode && not (str_eq last "") then within_cooldown clock last else pure false

  -- The first `defaults.get` raises where the setting is no dict.
  abbrev pub emulator_node : Value F → Result (Payload F)
  emulator_node (dict d) = ok d
  emulator_node _ = err attribute_error

  abbrev pub auto_node_hash : String → Payload F → Hash
  auto_node_hash node_id defaults =
      ("node_id", node_id)
      ∷ ("status", "ready")
      ∷ ("cpu_total", text_of (get_or "cpu_total" (int (pos 8)) defaults))
      ∷ ("ram_total_mb", text_of (get_or "ram_total_mb" (int (pos 16384)) defaults))
      ∷ ("cpu_used", "0")
      ∷ ("ram_used_mb", "0")
      ∷ ("gpu", p.lower (text_of (get_or "gpu" (str "false") defaults)))
      ∷ ("zone", text_of (get_or "zone" (str "auto") defaults))
      ∷ ("auto_scaled", "true")
      ∷ []

  abbrev counted : Result (ℤ × Store) → World → Result ℤ × World
  counted (ok (n, s)) w = (ok n, record w { redis = s })
  counted (err x) w = (err x, w)

  abbrev incr : Key → Exec ℤ
  incr k w = counted (p.redis_incr k w.redis) w

  -- `max(cooldown_seconds() * 2, 60)`
  abbrev action_ttl : ℤ → ℤ
  action_ttl cooldown =
      let twice = cooldown +ℤ cooldown in if ltb_ℤ twice (pos 60) then pos 60 else twice

  abbrev out_payload : Payload F → Payload F
  out_payload d = insert "action" (str "scale-out") d

  unfoldable pub add_node : ℤ → String → Payload F → Exec (Unit {0})
  add_node clock correlation_id d = do
    publish_scaling "scaling.started" correlation_id (out_payload d)
    sequence ← incr auto_node_sequence
    let node_id = "node-auto-" ++ p.show_int sequence
    config ← gets (λ w. w.config)
    defaults ←
        lift (
          emulator_node
            (get_nested config ("agents" ∷ "scale" ∷ "emulator_node" ∷ []) (dict empty)))
    command (p.redis_hset (node node_id) (auto_node_hash node_id defaults))
    cooldown ← cooldown_seconds
    overwrite (p.redis_setex last_action_ts (p.show_int clock) (action_ttl cooldown))
    publish_scaling "scaling.done" correlation_id (insert "node_id" (str node_id) (out_payload d))

  unfoldable pub scale_out : String → Payload F → Exec (Unit {0})
  scale_out correlation_id d = do
    t ← now
    clock ← or_raise (p.trunc t) value_error
    last ← query (p.redis_get last_action_ts)
    mode ← query (p.redis_get experiment_mode)
    cooling ← in_cooldown clock last mode
    if cooling
        then blocked correlation_id (out_payload d) "cooldown"
        else add_node clock correlation_id d

  -- A node that runs nothing and reserves nothing.
  unfoldable pub is_idle : ℕ → F → F → Bool
  is_idle n cpu_used ram_used = n == 0 && is_zero cpu_used && is_zero ram_used

  abbrev in_payload : String → Payload F → Payload F
  in_payload node_id d = insert "node_id" (str node_id) (insert "action" (str "scale-in") d)

  unfoldable pub remove_node : String → Payload F → Key → String → Exec (Unit {0})
  unfolding publish_scaling
  remove_node correlation_id d key node_id = do
    publish_scaling "scaling.started" correlation_id (in_payload node_id d)
    overwrite (p.redis_delete key)
    publish_scaling "scaling.done" correlation_id (in_payload node_id d)

  -- Whether a candidate may go: `none` for a node without an identifier.
  unfoldable pub idle_candidate : Hash → Exec (Option String)
  unfolding is_idle
  idle_candidate h =
      let t = of_hash {F = F} h in
      if not (is_true (lookup "node_id" t)) then pure none else do
        let node_id = text_of (get_or "node_id" null t)
        n ← query (p.redis_scard (running node_id))
        cpu_used ← lift (float_of (get_or "cpu_used" (int (pos 0)) t))
        ram_used ← lift (float_of (get_or "ram_used_mb" (int (pos 0)) t))
        pure (if is_idle n cpu_used ram_used then some node_id else none)

  -- The loop over the candidates; `some` is the node that goes.
  unfoldable pub find_idle : List Key → Exec (Option (Key × String))
  unfolding idle_candidate
  find_idle [] = pure none
  find_idle (k ∷ ks) = do
    h ← query (p.redis_hgetall k)
    found ← idle_candidate h
    elim found [ none ↦ find_idle ks | some node_id ↦ pure (some (k, node_id)) ]

  unfoldable pub scale_in : String → Payload F → Exec (Unit {0})
  unfolding find_idle remove_node blocked
  scale_in correlation_id d = do
    candidates ← gets (λ w. p.redis_keys auto_nodes w.redis)
    found ← find_idle candidates
    elim found [
      | none ↦ blocked correlation_id (insert "action" (str "scale-in") d) "no_safe_auto_nodes"
      | some (k, node_id) ↦ remove_node correlation_id d k node_id
    ]

  unfoldable pub handle_decision : EventEnvelope F → Exec (Unit {0})
  handle_decision e =
      if str_eq (text_of (get_or "action" (str "scale-out") e.payload)) "scale-in"
      then scale_in e.correlation_id e.payload
      else scale_out e.correlation_id e.payload

  abbrev pub report_failure : EventEnvelope F → Error → Exec (Unit {0})
  report_failure e x w =
      publish_scaling "scaling.failed" e.correlation_id
        (insert "error" (str (p.show_error x)) e.payload)
        (record w { last_error = some (p.show_error x) })

  -- One pass of `worker` up to the commit; after a failure there is no commit.
  unfoldable pub handle : EventEnvelope F → Exec (Unit {0})
  handle e w =
      if str_eq e.event_type "decision.scale"
      then (let (r, w') = handle_decision e w in caught r pure (report_failure e) w')
      else pure tt w
