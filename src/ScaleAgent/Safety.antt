-- ===== src/ScaleAgent/Safety.antt =====
-- What a scale-out in its cooldown does.
use cloud_multi_agent_manage.Prelude.{String, ◌≡◌, true, false, some, arith, suc, str_eq, Option}
use cloud_multi_agent_manage.Prelude.Int.{ℤ, ◌-ℤ◌, ltb_ℤ}
use cloud_multi_agent_manage.Value.{Payload, insert, str}
use cloud_multi_agent_manage.Key.{last_action_ts, experiment_mode}
use cloud_multi_agent_manage.Platform.{Platform, ok}
use cloud_multi_agent_manage.Exec.{World}
use cloud_multi_agent_manage.Runtime.Laws.{redis-announce}
use cloud_multi_agent_manage.Python.{replace_dots}
use cloud_multi_agent_manage.ScaleAgent.Handlers.{
  scale_out, stored_time, is_adaptive, cooldown_seconds, in_cooldown, blocked, publish_scaling,
}

module _ ⦃p : Platform⦄ where
  open p use {F}

  in_cooldown_lem :
      (clock before cooldown : ℤ) (last : String) (mode : Option String) (w : World)
      → is_adaptive mode ≡ true
      → str_eq last "" ≡ false
      → stored_time last ≡ ok before
      → (cooldown_seconds w).0 ≡ ok cooldown
      → ltb_ℤ (clock -ℤ before) cooldown ≡ true
      → in_cooldown clock (some last) mode w ≡ (ok true, w)
  unfolding in_cooldown cooldown_seconds
  in_cooldown_lem clock before cooldown last mode w m n s c h = ground arith

  redis-blocked :
      (cid reason : String) (d : Payload F) (w : World) → (blocked cid d reason w).1.redis ≡ w.redis
  unfolding blocked publish_scaling
  redis-blocked cid reason d w =
      redis-announce (replace_dots "scaling.blocked") "scaling.blocked" cid "scale-agent"
        (insert "reason" (str reason) d) w

  -- A scale-out outside the baseline mode and within the cooldown of the last action is blocked: Redis is
  -- as before, so no node is added and the time of the last action stays.
  pub redis-scale_out_cooling :
      (cid last : String) (mode : Option String) (d : Payload F) (clock before cooldown : ℤ)
      (w : World)
      → p.trunc (p.time_at w.readings) ≡ some clock
      → p.redis_get last_action_ts w.redis ≡ ok (some last)
      → p.redis_get experiment_mode w.redis ≡ ok mode
      → is_adaptive mode ≡ true
      → str_eq last "" ≡ false
      → stored_time last ≡ ok before
      → (cooldown_seconds w).0 ≡ ok cooldown
      → ltb_ℤ (clock -ℤ before) cooldown ≡ true
      → (scale_out cid d w).1.redis ≡ w.redis
  unfolding scale_out cooldown_seconds
  redis-scale_out_cooling cid last mode d clock before cooldown w t l q m n s c h =
      let r : World = record w { readings = suc w.readings } in
      ground (
        arith,
        in_cooldown_lem clock before cooldown last mode r m n s c h,
        redis-blocked cid "cooldown" (insert "action" (str "scale-out") d) r,
      )
