-- ===== src/ResourceAgent/Service.antt =====
-- services/resource_agent/main.py: the service around the handlers.
use cloud_multi_agent_manage.Prelude.{ℕ, String, Bool, Option, some, List, [], ◌∷◌}
use cloud_multi_agent_manage.Value.{Value}
use cloud_multi_agent_manage.Platform.{Platform, Result, ok, err}
use cloud_multi_agent_manage.Runtime.Service.{ServiceRuntime, Clients, new}
use cloud_multi_agent_manage.Runtime.Lifespan
use cloud_multi_agent_manage.Runtime.Lifespan.{Handle, Process, ReadyAnswer, ready_answer}
use cloud_multi_agent_manage.Message.{EventEnvelope}
use cloud_multi_agent_manage.Exec.{World}
use cloud_multi_agent_manage.Rabbit.Message.{Message}
use cloud_multi_agent_manage.Worker.{Served, attend, serve}
use cloud_multi_agent_manage.ResourceAgent.Handlers.{handle}
use cloud_multi_agent_manage.ResourceAgent.Nodes.{initialize_nodes}

abbrev pub topics : List String
topics = "need_placement" ∷ "node.unavailable" ∷ []

abbrev pub runtime : ServiceRuntime
runtime = new "resource-agent" topics

-- The tasks that `lifespan` creates.
abbrev pub tasks : List String
tasks = "worker" ∷ []

abbrev pub ready : ServiceRuntime → ReadyAnswer
ready self = ready_answer "resource-agent" self.ready

module _ ⦃p : Platform⦄ where
  open p use {F}

  unfoldable pub lifespan :
      Clients F
      → Value F
      → Option String
      → (Handle → Result (Unit {0}))
      → (Process → Process)
      → Process
      → Process
  unfolding Lifespan.lifespan
  lifespan clients config env = Lifespan.lifespan clients config env tasks

  -- An error of `initialize_nodes` ends the worker before it reads a message.
  abbrev initialized : Result (Unit {0}) × World → List (Message F) → (World → Served) → Served
  initialized (ok u, w) ms rest = rest w
  initialized (err x, w) ms rest = record { effects = []; unread = ms; world = w; error = some x }

  unfoldable pub worker :
      (String → Option (EventEnvelope F)) → Bool → ℕ → List (Message F) → World → Served
  unfolding serve initialize_nodes
  worker decode retry now ms w =
      initialized (initialize_nodes w) ms (serve decode retry now (attend handle) ms)
