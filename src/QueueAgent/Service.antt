-- ===== src/QueueAgent/Service.antt =====
-- services/queue_agent/main.py: the service around the handlers.
use cloud_multi_agent_manage.Prelude.{ℕ, String, Bool, Option, List, [], ◌∷◌}
use cloud_multi_agent_manage.Value.{Value}
use cloud_multi_agent_manage.Platform.{Platform, Result}
use cloud_multi_agent_manage.Runtime.Service.{ServiceRuntime, Clients, new}
use cloud_multi_agent_manage.Runtime.Lifespan
use cloud_multi_agent_manage.Runtime.Lifespan.{Handle, Process, ReadyAnswer, ready_answer}
use cloud_multi_agent_manage.Message.{EventEnvelope}
use cloud_multi_agent_manage.Exec.{World}
use cloud_multi_agent_manage.Rabbit.Message.{Message}
use cloud_multi_agent_manage.Worker.{Served, attend, serve}
use cloud_multi_agent_manage.QueueAgent.Handlers.{handle}

abbrev pub topics : List String
topics = "request.created" ∷ "sla.risk" ∷ "sla.boost" ∷ "scaling.done" ∷ []

abbrev pub runtime : ServiceRuntime
runtime = new "queue-agent" topics

-- The tasks that `lifespan` creates.
abbrev pub tasks : List String
tasks = "worker" ∷ "aging_loop" ∷ []

abbrev pub ready : ServiceRuntime → ReadyAnswer
ready self = ready_answer "queue-agent" self.ready

module _ ⦃p : Platform⦄ where
  open p use {F}

  unfoldable pub lifespan :
      Clients F
      → Value F
      → Option String
      → (Handle → Result (Unit {0}))
      → (Process → Process)
      → Process
      → Process
  unfolding Lifespan.lifespan
  lifespan clients config env = Lifespan.lifespan clients config env tasks

  unfoldable pub worker :
      (String → Option (EventEnvelope F)) → Bool → ℕ → List (Message F) → World → Served
  unfolding serve
  worker decode retry now = serve decode retry now (attend handle)
