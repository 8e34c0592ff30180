-- ===== src/ExecutorAgent/Service.antt =====
-- services/executor_agent/main.py: the service around the handlers.
use cloud_multi_agent_manage.Prelude.{ℕ, String, Bool, Option, List, [], ◌∷◌}
use cloud_multi_agent_manage.Value.{Value}
use cloud_multi_agent_manage.Platform.{Platform, Result}
use cloud_multi_agent_manage.Runtime.Service.{ServiceRuntime, Clients, new}
use cloud_multi_agent_manage.Runtime.Lifespan
use cloud_multi_agent_manage.Runtime.Lifespan.{Handle, Process, ReadyAnswer, ready_answer}
use cloud_multi_agent_manage.Message.{EventEnvelope}
use cloud_multi_agent_manage.Exec.{World}
use cloud_multi_agent_manage.Rabbit.Message.{Message}
use cloud_multi_agent_manage.Worker.{Served, attend, serve}
use cloud_multi_agent_manage.ExecutorAgent.Execute.{handle}

abbrev pub topics : List String
topics = "decision.dispatch" ∷ "node.unavailable" ∷ []

abbrev pub runtime : ServiceRuntime
runtime = new "executor-agent" topics

-- The tasks that `lifespan` creates.
abbrev pub tasks : List String
tasks = "worker" ∷ []

abbrev pub ready : ServiceRuntime → ReadyAnswer
ready self = ready_answer "executor-agent" self.ready

module _ ⦃p : Platform⦄ where
  open p use {F, Store}

  unfoldable pub lifespan :
      Clients F
      → Value F
      → Option String
      → (Handle → Result (Unit {0}))
      → (Process → Process)
      → Process
      → Process
  unfolding Lifespan.lifespan
  lifespan clients config env = Lifespan.lifespan clients config env tasks

  -- `others` is what the other services do to Redis during the sleeps.
  unfoldable pub worker :
      (ℕ → Store → Store)
      → (String → Option (EventEnvelope F))
      → Bool
      → ℕ
      → List (Message F)
      → World
      → Served
  unfolding serve
  worker others decode retry now = serve decode retry now (attend (handle others))
