-- ===== src/QueueAgent/Signals.antt =====
-- Which tasks a signal of the SLA agent moves in the queues.
use cloud_multi_agent_manage.Prelude.{
  ◌≡◌, refl, false, true, some, arith, Option, String, ◌||◌, not,
}
use cloud_multi_agent_manage.Value.{Value, Payload, Hash, lookup, str, get_or, null}
use cloud_multi_agent_manage.Key.{task, experiment_mode}
use cloud_multi_agent_manage.Platform.{Platform, ok}
use cloud_multi_agent_manage.Exec.{World}
use cloud_multi_agent_manage.QueueAgent.Handlers.{
  is_baseline, boost_if_queued, apply_sla_signal, is_queued,
}

module _ ⦃p : Platform⦄ where
  open p use {F}

  boost_if_queued-not_queued :
      (d : Payload F) (cid task_id : String) (h : Hash) (w : World)
      → is_queued h ≡ false
      → boost_if_queued d cid task_id h w ≡ (ok tt, w)
  unfolding boost_if_queued
  boost_if_queued-not_queued d cid task_id h w n = rw n refl

  get_or_lem : (k : String) (v x : Value F) (d : Payload F) → lookup k d ≡ some x → get_or k v d ≡ x
  unfolding get_or
  get_or_lem k v x d h = ground arith

  -- In the baseline mode a signal about a task changes nothing, and in no mode does a signal about a
  -- task that is neither classified nor waiting change anything, so such a task does not come back
  -- into the queues.
  pub apply_sla_signal-not_queued :
      (d : Payload F) (cid task_id : String) (mode : Option String) (h : Hash) (w : World)
      → lookup "task_id" d ≡ some (str task_id)
      → p.redis_get experiment_mode w.redis ≡ ok mode
      → p.redis_hgetall (task task_id) w.redis ≡ ok h
      → is_baseline mode || not (is_queued h) ≡ true
      → apply_sla_signal d cid w ≡ (ok tt, w)
  unfolding apply_sla_signal
  apply_sla_signal-not_queued d cid task_id mode h w l m r n = ground (
    arith,
    get_or_lem "task_id" null (str task_id) d l,
    boost_if_queued-not_queued d cid task_id h w,
  )
