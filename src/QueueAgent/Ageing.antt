-- ===== src/QueueAgent/Ageing.antt =====
-- services/queue_agent/main.py: one round of `aging_loop`.
use cloud_multi_agent_manage.Prelude.{String, some, List, [], ◌∷◌, if◌then◌else◌}
use cloud_multi_agent_manage.Value.{Hash, float, get_or, of_hash, is_empty}
use cloud_multi_agent_manage.Key.{task, waiting, class_queue}
use cloud_multi_agent_manage.Platform.{Platform, Error}
use cloud_multi_agent_manage.Python.{float_of}
use cloud_multi_agent_manage.Exec.{Exec, pure, lift, query, ◌>>=◌, ◌>>◌, command, now, caught}
use cloud_multi_agent_manage.QueueAgent.Priority.{task_classes, dynamic_priority}
use cloud_multi_agent_manage.QueueAgent.Handlers.{set_queue_metrics}

module _ ⦃p : Platform⦄ where
  open p use {F}

  abbrev rescore : F → String → String → Hash → Exec (Unit {0})
  rescore clock task_class task_id h = if is_empty h then pure tt else do
    created_at ← lift (float_of (get_or "created_at_ts" (float clock) (of_hash {F = F} h)))
    score ← dynamic_priority (of_hash h) created_at (some clock)
    command (p.redis_zadd (class_queue task_class) task_id score)
    command (p.redis_zadd waiting task_id score)

  -- The body of the inner loop.
  unfoldable pub age_task : F → String → String → Exec (Unit {0})
  age_task clock task_class task_id = do
    h ← query (p.redis_hgetall (task task_id))
    rescore clock task_class task_id h

  unfoldable pub age_tasks : F → String → List String → Exec (Unit {0})
  unfolding age_task
  age_tasks clock task_class [] = pure tt
  age_tasks clock task_class (t ∷ ts) =
      age_task clock task_class t >>= λ _. age_tasks clock task_class ts

  unfoldable pub age_classes : F → List String → Exec (Unit {0})
  unfolding age_tasks
  age_classes clock [] = pure tt
  age_classes clock (c ∷ cs) =
      (query (p.redis_zrange (class_queue c)) >>= age_tasks clock c) >>= λ _. age_classes clock cs

  abbrev note_error : Error → Exec (Unit {0})
  note_error e w = pure tt (record w { last_error = some (p.show_error e) })

  -- One pass of the `while True`; a failure is recorded and the loop goes on.
  unfoldable pub age_round : Exec (Unit {0})
  unfolding age_classes
  age_round w =
      let (r, w') = (do clock ← now; age_classes clock task_classes; set_queue_metrics) w in
      caught r pure note_error w'
