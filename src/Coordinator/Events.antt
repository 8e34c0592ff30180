-- ===== src/Coordinator/Events.antt =====
-- services/coordinator_agent/main.py: `worker` and `schedule_decision`. The delayed decisions are
-- asyncio tasks: `pending` are the tasks whose decision waits for its window.
use cloud_multi_agent_manage.Prelude.{
  String, Bool, true, false, Option, none, some, List, [], ◌∷◌, str_eq, if◌then◌else◌,
}
use cloud_multi_agent_manage.Value.{Payload, float, null, lookup, get_or, insert}
use cloud_multi_agent_manage.Key.{node, classified, sla, forecast, proposal}
use cloud_multi_agent_manage.Platform.{Platform}
use cloud_multi_agent_manage.Message.{EventEnvelope}
use cloud_multi_agent_manage.Python.{text_of, is_true, is_one_of}
use cloud_multi_agent_manage.Exec.{Exec, pure, ◌>>=◌, ◌>>◌, command, now}
use cloud_multi_agent_manage.Coordinator.Proposals.{save_payload}

-- `task_id in pending_decisions and not pending_decisions[task_id].done()`: what is done is popped.
-- `true` is a new delayed decision.
unfoldable pub schedule_decision : String → List String → Bool × List String
schedule_decision task_id pending =
    if is_one_of task_id pending then (false, pending) else (true, task_id ∷ pending)

-- `pending_decisions.pop(task_id, None)`, when the delayed decision has ended.
unfoldable pub pop_decision : String → List String → List String
pop_decision task_id [] = []
pop_decision task_id (t ∷ ts) =
    let rest = pop_decision task_id ts in if str_eq t task_id then rest else t ∷ rest

module _ ⦃p : Platform⦄ where
  open p use {F}

  -- `payload.get("node_id") or "none"`
  abbrev node_or_none : Payload F → String
  node_or_none d =
      if is_true (lookup "node_id" d) then text_of (get_or "node_id" null d) else "none"

  -- What an event stores, by its type.
  unfoldable pub store_event : String → String → Payload F → Exec (Unit {0})
  unfolding save_payload
  store_event event_type task_id d =
      if str_eq event_type "request.classified"
      then (do
        clock ← now
        save_payload (classified task_id) (insert "classified_at_ts" (float clock) d))
      else if str_eq event_type "sla.risk"
      then save_payload (sla task_id) d
      else if str_eq event_type "forecast.queue"
      then save_payload (forecast task_id) d
      else if str_eq event_type "node.proposal.fit"
      then save_payload (proposal task_id (node_or_none d)) d
      else if str_eq event_type "node.unavailable"
      then command
          (p.redis_hset (node (text_of (get_or "node_id" null d))) (("status", "failed") ∷ []))
      else pure tt

  -- The body of the `try` in `worker`; the result is the task whose decision is to be scheduled.
  unfoldable pub handle : EventEnvelope F → Exec (Option String)
  unfolding store_event
  handle e =
      if is_true (lookup "task_id" e.payload)
      then (do
        let task_id = text_of (get_or "task_id" null e.payload)
        store_event e.event_type task_id e.payload
        pure (some task_id))
      else pure none
