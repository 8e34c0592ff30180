-- ===== src/Coordinator/Decided.antt =====
-- The marker `decision:made:{task}`, by which a task is decided once.
use cloud_multi_agent_manage.Prelude.{String, ◌≡◌, refl, true, false, none, some, keep, arith}
use cloud_multi_agent_manage.Coordinator.Proposals.{is_safe}
use cloud_multi_agent_manage.Value.{Payload, Value, null}
use cloud_multi_agent_manage.Platform.{Platform, ok}
use cloud_multi_agent_manage.Platform.Laws.{IsRedis}
use cloud_multi_agent_manage.Python.{item}
use cloud_multi_agent_manage.Persistence.{save_decision}
use cloud_multi_agent_manage.Runtime.{announce}
use cloud_multi_agent_manage.Runtime.Laws.{redis-announce}
use cloud_multi_agent_manage.Exec.{World, lift, pure, ◌>>=◌}
use cloud_multi_agent_manage.Exec.Laws.{redis-bind}
use cloud_multi_agent_manage.Coordinator.Decide.{
  decide_on, select, dispatch, decide_scale, publish_scale, Signals, build_explanation,
  scale_payload,
}

module _ ⦃p : Platform⦄ where
  open p use {F}

  redis-save_decision :
      (task_id cid : String) (node : Value F) (u : F) (kind : String) (d : Payload F) (w : World)
      → (save_decision task_id cid node u kind d w).1.redis ≡ w.redis
  unfolding save_decision
  redis-save_decision task_id cid node u kind d w = ground arith

  -- What `publish_scale` does before the marker.
  redis-announce_scale :
      (t : Payload F) (cid : String) (u : F) (payload : Payload F) (w : World)
      → ((lift (item "task_id" t) >>= λ task_id.
            announce "decision_scale" "decision.scale" cid "coordinator-agent" payload >>= λ _.
            save_decision task_id cid null u "scale" payload >>= λ _. pure tt)
          w).1.redis
        ≡ w.redis
  redis-announce_scale t cid u payload w =
      redis-bind (lift (item "task_id" t))
        (λ task_id.
          announce "decision_scale" "decision.scale" cid "coordinator-agent" payload >>= λ _.
          save_decision task_id cid null u "scale" payload >>= λ _. pure tt)
        w (λ u. refl)
        (λ task_id v.
          redis-bind (announce "decision_scale" "decision.scale" cid "coordinator-agent" payload)
            (λ _. save_decision task_id cid null u "scale" payload >>= λ _. pure tt) v
            (redis-announce "decision_scale" "decision.scale" cid "coordinator-agent" payload)
            (λ _ v'.
              redis-bind (save_decision task_id cid null u "scale" payload) (λ _. pure tt) v'
                (redis-save_decision task_id cid null u "scale" payload) (λ _ _. refl)))

  redis-publish_scale_requeue :
      (t explanation : Payload F) (cid : String) (u : F) (w : World)
      → (publish_scale t cid explanation u false true w).1.redis ≡ w.redis
  unfolding publish_scale
  redis-publish_scale_requeue t explanation cid u w =
      redis-announce_scale t cid u (scale_payload t explanation false true) w

  -- A task without a safe proposal stays undecided: the request for a node leaves Redis, and with it the
  -- task's marker, as it was, whether it succeeds or raises.
  pub redis-decide_scale : (s : Signals F) (w : World) → (decide_scale s w).1.redis ≡ w.redis
  unfolding decide_scale
  redis-decide_scale s w =
      redis-bind (lift (build_explanation w.config "scale" none s "no_safe_nodes_available"))
        (λ explanation. publish_scale s.payload s.correlation_id explanation (p.lit 0 1) false true)
        w (λ v. refl)
        (λ explanation v.
          redis-publish_scale_requeue s.payload explanation s.correlation_id (p.lit 0 1) v)

module _ ⦃p : Platform⦄ (laws : IsRedis) where
  open p use {F}
  open laws use {view, write, get_lem, setex_lem, view-write_self}

  pub decide_on-dispatch :
      (s : Signals F) (d : Payload F) (w : World)
      → select w.config s (keep is_safe s.candidates) ≡ ok (some d)
      → decide_on s w ≡ dispatch s d w
  unfolding decide_on
  decide_on-dispatch s d w e = rw e refl
