-- ===== src/SlaAgent/KeyClash.antt =====
-- Two services write the key `sla:{task}`: the SLA agent a hash, the coordinator a text.
use cloud_multi_agent_manage.Prelude.{String, ◌≡◌, ap, ◌∙◌, false, suc, [], some, arith, str_eq}
use cloud_multi_agent_manage.Prelude.Int.{ℤ}
use cloud_multi_agent_manage.Value.{Payload, Hash, dict, hash_update}
use cloud_multi_agent_manage.Key.{Key, sla, decision_made, classified}
use cloud_multi_agent_manage.Message.{EventEnvelope}
use cloud_multi_agent_manage.Platform.{Platform, ok, err, wrong_type}
use cloud_multi_agent_manage.Platform.Laws.{IsRedis, hash, string, absent}
use cloud_multi_agent_manage.Platform.Results.{is_ok}
use cloud_multi_agent_manage.Runtime.{announce}
use cloud_multi_agent_manage.Runtime.Laws.{redis-announce}
use cloud_multi_agent_manage.Exec.{World, when, Exec, when}
use cloud_multi_agent_manage.Exec.Laws.{redis-bind, redis-when}
use cloud_multi_agent_manage.SlaAgent.Risk.{Assessment}
use cloud_multi_agent_manage.SlaAgent.Handlers.{
  publish_risk, signal_risk, risk_hash, risk_payload, needs_boost,
}
use cloud_multi_agent_manage.Coordinator.Proposals.{load_payload}
use cloud_multi_agent_manage.Coordinator.Decide.{decide, decide_task}

module _ ⦃p : Platform⦄ (laws : IsRedis) where
  open p use {F}
  open laws use {view, write, get_lem, hset_lem, view-write_self, view-write_ne}

  load_payload-clash :
      (k : Key) (h : Hash) (w : World)
      → view k w.redis ≡ hash h
      → load_payload k w ≡ (err wrong_type, w)
  unfolding load_payload
  load_payload-clash k h w v = ground (arith, get_lem k w.redis)

  load_payload-dict :
      (k : Key) (raw : String) (d : Payload F) (w : World)
      → view k w.redis ≡ string raw
      → str_eq raw "" ≡ false
      → p.loads raw ≡ some (dict d)
      → load_payload k w ≡ (ok (some d), w)
  unfolding load_payload
  load_payload-dict k raw d w v n l = ground (arith, get_lem k w.redis)

  decide_task-clash :
      (task_id cid : String) (d : Payload F) (h : Hash) (w : World)
      → view (sla task_id) w.redis ≡ hash h
      → is_ok (decide_task task_id cid d w).0 ≡ false
  unfolding decide_task
  decide_task-clash task_id cid d h w v =
      ground (arith, load_payload-clash (sla task_id) h (record w { readings = suc w.readings }) v)

  -- An undecided, classified task cannot be decided while `sla:{task}` is a hash: the coordinator's
  -- GET is refused, and `decide` raises.
  pub decide-clash :
      (task_id cid raw : String) (d : Payload F) (h : Hash) (w : World)
      → view (decision_made task_id) w.redis ≡ absent
      → view (classified task_id) w.redis ≡ string raw
      → str_eq raw "" ≡ false
      → p.loads raw ≡ some (dict d)
      → view (sla task_id) w.redis ≡ hash h
      → is_ok (decide task_id cid w).0 ≡ false
  unfolding decide
  decide-clash task_id cid raw d h w m c n l v = ground (
    arith,
    get_lem (decision_made task_id) w.redis,
    load_payload-dict (classified task_id) raw d w c n l,
    decide_task-clash task_id cid d h w v,
  )

  redis-signal_risk :
      (e : EventEnvelope F) (a : Assessment) (boosted : ℤ) (w : World)
      → (signal_risk e a boosted w).1.redis ≡ w.redis
  unfolding signal_risk
  redis-signal_risk e a boosted w =
      let d = risk_payload e.payload a boosted in
      let boost : Exec (Unit {0}) =
        announce "sla_boost" "sla.boost" e.correlation_id "sla-agent" d in
      redis-bind (announce "sla_risk" "sla.risk" e.correlation_id "sla-agent" d)
        (λ _. when (needs_boost a.severity) boost) w
        (redis-announce "sla_risk" "sla.risk" e.correlation_id "sla-agent" d)
        (λ _ u.
          redis-when (needs_boost a.severity) boost u
            (redis-announce "sla_boost" "sla.boost" e.correlation_id "sla-agent" d u))

  redis-publish_risk :
      (e : EventEnvelope F) (a : Assessment) (boosted : ℤ) (task_id : String) (w : World)
      → view (sla task_id) w.redis ≡ absent
      → (publish_risk e a boosted task_id w).1.redis
        ≡ write (sla task_id) (hash (hash_update [] (risk_hash a))) w.redis
  unfolding publish_risk
  redis-publish_risk e a boosted task_id w v = ground (
    arith,
    hset_lem (sla task_id) (risk_hash a) w.redis,
    redis-signal_risk e a boosted
        (record w { redis = write (sla task_id) (hash (hash_update [] (risk_hash a))) w.redis }),
  )

  -- A classified task with no decision yet, whose risk the SLA agent has just published, cannot be
  -- decided: the hash that the agent leaves under `sla:{task}` makes the coordinator's `decide` raise.
  pub decide-publish_risk :
      (e : EventEnvelope F) (a : Assessment) (boosted : ℤ) (task_id cid raw : String)
      (d : Payload F) (w : World)
      → view (sla task_id) w.redis ≡ absent
      → view (decision_made task_id) w.redis ≡ absent
      → view (classified task_id) w.redis ≡ string raw
      → str_eq raw "" ≡ false
      → p.loads raw ≡ some (dict d)
      → is_ok (decide task_id cid (publish_risk e a boosted task_id w).1).0 ≡ false
  decide-publish_risk e a boosted task_id cid raw d w s m c n l =
      let r = redis-publish_risk e a boosted task_id w s in
      decide-clash task_id cid raw d (hash_update [] (risk_hash a))
        (publish_risk e a boosted task_id w).1
        (ap (view (decision_made task_id)) r
          ∙ view-write_ne (decision_made task_id) (sla task_id)
              (hash (hash_update [] (risk_hash a))) w.redis (λ h. cc)
          ∙ m)
        (ap (view (classified task_id)) r
          ∙ view-write_ne (classified task_id) (sla task_id) (hash (hash_update [] (risk_hash a)))
              w.redis (λ h. cc)
          ∙ c)
        n l
        (ap (view (sla task_id)) r
          ∙ view-write_self (sla task_id) (hash (hash_update [] (risk_hash a))) w.redis)
