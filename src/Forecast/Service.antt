-- ===== src/Forecast/Service.antt =====
-- services/forecast_agent/main.py: the service around the handlers.
use cloud_multi_agent_manage.Prelude.{String, Option, List, [], ◌∷◌}
use cloud_multi_agent_manage.Value.{Value}
use cloud_multi_agent_manage.Platform.{Platform, Result}
use cloud_multi_agent_manage.Runtime.Service.{ServiceRuntime, Clients, new}
use cloud_multi_agent_manage.Runtime.Lifespan
use cloud_multi_agent_manage.Runtime.Lifespan.{Handle, Process, ReadyAnswer, ready_answer}

abbrev pub topics : List String
topics = "request.classified" ∷ "execution.done" ∷ "execution.failed" ∷ []

abbrev pub runtime : ServiceRuntime
runtime = new "forecast-agent" topics

-- The tasks that `lifespan` creates.
abbrev pub tasks : List String
tasks = "worker" ∷ []

abbrev pub ready : ServiceRuntime → ReadyAnswer
ready self = ready_answer "forecast-agent" self.ready

module _ ⦃p : Platform⦄ where
  open p use {F}

  unfoldable pub lifespan :
      Clients F
      → Value F
      → Option String
      → (Handle → Result (Unit {0}))
      → (Process → Process)
      → Process
      → Process
  unfolding Lifespan.lifespan
  lifespan clients config env = Lifespan.lifespan clients config env tasks
