-- ===== src/Runtime/Lifespan.antt =====
-- common/cloudrm/runtime.py: `ServiceRuntime.stop`, and the `lifespan` of the services with the
-- tasks that it starts (services/*/main.py).
use cloud_multi_agent_manage.Prelude.{
  ℕ, ◌≡◌, String, Bool, true, false, Option, none, some, List, [], ◌∷◌, ◌++◌, str_eq, if◌then◌else◌,
}
use cloud_multi_agent_manage.Value.{Value}
use cloud_multi_agent_manage.Platform.{Platform, Result, ok, err}
use cloud_multi_agent_manage.Platform.Results.{is_ok}
use cloud_multi_agent_manage.Runtime.Service.{ServiceRuntime, Consumer, Clients, new}
use cloud_multi_agent_manage.Runtime.Start.{start}

-- What `stop` closes.
pub data Handle : Type 0 where
  consumer_handle bus_handle publisher_handle redis_handle db_handle : Handle

abbrev pub has_consumer : Option Consumer → Bool
has_consumer none = false
has_consumer (some c) = true

abbrev pub given : Bool → Handle → List Handle
given true h = h ∷ []
given false h = []

-- The handles that are not None, in the order of `stop`.
abbrev pub held : ServiceRuntime → List Handle
held self =
    given (has_consumer self.consumer) consumer_handle
    ++ (given self.bus bus_handle
        ++ (given self.rabbit publisher_handle
            ++ (given self.redis redis_handle ++ given self.db db_handle)))

-- One after another; an error leaves the rest open. The second part is what has been closed.
unfoldable pub close_all :
    (Handle → Result (Unit {0})) → List Handle → Result (Unit {0}) × List Handle
close_all close [] = (ok tt, [])
close_all close (h ∷ hs) =
    let rest = close_all close hs in
    elim (close h) [ ok u ↦ (rest.0, h ∷ rest.1) | err x ↦ (err x, []) ]

unfoldable pub stop :
    (Handle → Result (Unit {0})) → ServiceRuntime → ServiceRuntime × Result (Unit {0}) × List Handle
unfolding close_all
stop close self =
    let (result, closed) = close_all close (held self) in
    (record self { ready = false }, result, closed)

-- Where the process of a service is: before its `lifespan`, at the `yield`, after it, or after a
-- start that raised, which nothing catches.
pub data Phase : Type 0 where
  waiting serving ended broken : Phase

-- `tasks` are the tasks of asyncio that run, `cancelled` those that were asked to end, and `closed` is
-- what has been closed.
pub record Process : Type 0 where
  pub phase : Phase
  pub runtime : ServiceRuntime
  pub tasks : List String
  pub cancelled : List String
  pub closed : List Handle

abbrev pub launched : String → List String → Process
launched name topics = record {
  phase = waiting;
  runtime = new name topics;
  tasks = [];
  cancelled = [];
  closed = [];
}

-- A task that returned, or raised.
abbrev pub without : String → List String → List String
without t [] = []
without t (u ∷ us) = let rest = without t us in if str_eq u t then rest else u ∷ rest

abbrev pub task_ended : String → Process → Process
task_ended t s = record s { tasks = without t s.tasks }

-- The `finally`: the tasks are cancelled, then the clients closed. `cancel()` only asks a task to end,
-- and nothing waits for it: the task runs until it ends.
unfoldable pub leave : (Handle → Result (Unit {0})) → Process → Process
unfolding stop
leave close s =
    let (self, result, closed) = stop close s.runtime in
    record s { phase = ended; runtime = self; cancelled = s.tasks; closed = closed }

-- The body of `/ready`, and its status code.
pub record ReadyAnswer : Type 0 where
  pub code : ℕ
  pub status : String
  pub service : String
  pub ready : Bool

abbrev pub ready_answer : String → Bool → ReadyAnswer
ready_answer name true = record { code = 200; status = "ok"; service = name; ready = true }
ready_answer name false = record { code = 503; status = "not_ready"; service = name; ready = false }

module _ ⦃p : Platform⦄ where
  open p use {F}

  abbrev pub entered : List String → Result (Unit {0}) × ServiceRuntime → Process → Process
  entered names (ok u, self) s = record s { phase = serving; runtime = self; tasks = names }
  entered names (err x, self) s = record s { phase = broken; runtime = self }

  -- Up to the `yield`; `names` are the tasks that the service creates.
  unfoldable pub enter : Clients F → Value F → Option String → List String → Process → Process
  unfolding start
  enter clients config env names s = entered names (start clients config env s.runtime) s

  -- `lifespan`: `between` is what happens at the `yield`, which is not reached after a start that
  -- raised.
  unfoldable pub lifespan :
      Clients F
      → Value F
      → Option String
      → List String
      → (Handle → Result (Unit {0}))
      → (Process → Process)
      → Process
      → Process
  unfolding enter leave
  lifespan clients config env names close between s =
      let t = enter clients config env names s in
      if is_ok (start clients config env s.runtime).0 then leave close (between t) else t

  -- What can happen to the process of a service.
  pub data Step (clients : Clients F) (config : Value F) (env : Option String) (names : List String)
      (close : Handle → Result (Unit {0})) : Process → Process → Type 0 where
    begins :
        {s t : Process}
        → s.phase ≡ waiting
        → t ≡ enter clients config env names s
        → Step clients config env names close s t
    task_ends :
        {s t : Process} (name : String)
        → t ≡ task_ended name s
        → Step clients config env names close s t
    leaves :
        {s t : Process}
        → s.phase ≡ serving
        → t ≡ leave close s
        → Step clients config env names close s t

  pub data Reachable (clients : Clients F) (config : Value F) (env : Option String)
      (names : List String) (close : Handle → Result (Unit {0})) (first : Process)
      : Process → Type 0 where
    at_first : Reachable clients config env names close first first
    later :
        {s t : Process}
        → Reachable clients config env names close first s
        → Step clients config env names close s t
        → Reachable clients config env names close first t
