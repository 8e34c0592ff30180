-- ===== src/ScaleAgent/Service.antt =====
-- services/scale_agent/main.py: the service around the handlers.
use cloud_multi_agent_manage.Prelude.{
  ℕ, String, Bool, Option, none, List, [], ◌∷◌, str_eq, if◌then◌else◌,
}
use cloud_multi_agent_manage.Value.{Value}
use cloud_multi_agent_manage.Platform.{Platform, Result, ok, err}
use cloud_multi_agent_manage.Runtime.Service.{ServiceRuntime, Clients, new}
use cloud_multi_agent_manage.Runtime.Lifespan
use cloud_multi_agent_manage.Runtime.Lifespan.{Handle, Process, ReadyAnswer, ready_answer}
use cloud_multi_agent_manage.Message.{EventEnvelope}
use cloud_multi_agent_manage.Exec.{World}
use cloud_multi_agent_manage.Rabbit.Message.{Message}
use cloud_multi_agent_manage.Exec.{Exec, pure}
use cloud_multi_agent_manage.Rabbit.Consumer.{Outcome, committed, failed}
use cloud_multi_agent_manage.Worker.{Served, Turn, serve}
use cloud_multi_agent_manage.ScaleAgent.Handlers.{handle_decision, report_failure}

abbrev pub topics : List String
topics = "decision.scale" ∷ []

abbrev pub runtime : ServiceRuntime
runtime = new "scale-agent" topics

-- The tasks that `lifespan` creates.
abbrev pub tasks : List String
tasks = "worker" ∷ []

abbrev pub ready : ServiceRuntime → ReadyAnswer
ready self = ready_answer "scale-agent" self.ready

module _ ⦃p : Platform⦄ where
  open p use {F}

  unfoldable pub lifespan :
      Clients F
      → Value F
      → Option String
      → (Handle → Result (Unit {0}))
      → (Process → Process)
      → Process
      → Process
  unfolding Lifespan.lifespan
  lifespan clients config env = Lifespan.lifespan clients config env tasks

  -- The `except` clause publishes the failure, and an error of that leaves the loop.
  abbrev reported : Result (Unit {0}) × World → Result Outcome × World
  reported (ok u, w) = (ok failed, w)
  reported (err x, w) = (err x, w)

  abbrev scaled : EventEnvelope F → Result (Unit {0}) × World → Result Outcome × World
  scaled e (ok u, w) = (ok committed, record w { last_error = none })
  scaled e (err x, w) = reported (report_failure e x w)

  abbrev decision_of : EventEnvelope F → Exec (Unit {0})
  decision_of e = if str_eq e.event_type "decision.scale" then handle_decision e else pure tt

  unfoldable pub turn : Turn
  turn e w = scaled e (decision_of e w)

  unfoldable pub worker :
      (String → Option (EventEnvelope F)) → Bool → ℕ → List (Message F) → World → Served
  unfolding serve turn
  worker decode retry now = serve decode retry now turn
