-- ===== src/Examples/LifeTests.antt =====
-- The life of the process of a service at concrete inputs.
use cloud_multi_agent_manage.Prelude.{◌≡◌, refl, sym, ap, true, some, List, [], ◌∷◌, String, In}
use cloud_multi_agent_manage.Value.{lookup, get_or}
use cloud_multi_agent_manage.Platform.{Result, ok}
use cloud_multi_agent_manage.Python.{get_nested}
use cloud_multi_agent_manage.Exec.{dual}
use cloud_multi_agent_manage.Rabbit.Settings.{default_settings, from_config}
use cloud_multi_agent_manage.Runtime.Setting.{api_backend, event_backend, backend_text}
use cloud_multi_agent_manage.Runtime.Start.{start}
use cloud_multi_agent_manage.Api.Start.{start_state}
use cloud_multi_agent_manage.Api.Started.{unready, start_state-start}
use cloud_multi_agent_manage.Runtime.Service.{Consumer, new}
use cloud_multi_agent_manage.Runtime.Lifespan.{
  Handle, consumer_handle, bus_handle, publisher_handle, redis_handle, db_handle, Process, serving,
  launched, entered, enter, leave, Reachable, at_first, later, begins, leaves,
}
use cloud_multi_agent_manage.Runtime.Started.{started, start-ready}
use cloud_multi_agent_manage.Runtime.Lifecycle.{ready-serving, ended-closed}
use cloud_multi_agent_manage.Examples.Toy.{toy}
use cloud_multi_agent_manage.Examples.StartTests.{clients, clients-IsAvailable, config}

abbrev close : Handle → Result (Unit {0})
close h = ok tt

abbrev names : List String
names = "worker" ∷ []

abbrev first : Process
first = launched "sla-agent" []

abbrev process : Process
process = entered ⦃p = toy⦄ names (ok tt, started default_settings dual (new "sla-agent" [])) first

entered-process : enter ⦃p = toy⦄ clients config (some "dual") names first ≡ process
unfolding enter get_nested lookup get_or from_config event_backend backend_text
entered-process =
    ap (λ q. entered ⦃p = toy⦄ names q first)
      (start-ready ⦃p = toy⦄ clients 5 clients-IsAvailable config (some "dual") 20000
        default_settings dual "sla-agent" [] refl refl refl)

abbrev reached : Reachable ⦃p = toy⦄ clients config (some "dual") names close first process
reached = later at_first (begins refl (sym entered-process))

ready-serving_example : process.phase ≡ serving
ready-serving_example =
    ready-serving ⦃p = toy⦄ clients config (some "dual") names close "sla-agent" [] process reached
      refl

ended-closed_example :
    let s = leave close process in
    ((t : String) → In t s.tasks → In t s.cancelled)
    × ((c : Consumer) → s.runtime.consumer ≡ some c → In consumer_handle s.closed)
    × (s.runtime.bus ≡ true → In bus_handle s.closed)
    × (s.runtime.rabbit ≡ true → In publisher_handle s.closed)
    × (s.runtime.redis ≡ true → In redis_handle s.closed)
    × (s.runtime.db ≡ true → In db_handle s.closed)
unfolding leave
ended-closed_example =
    ended-closed ⦃p = toy⦄ clients config (some "dual") names close "sla-agent" []
      (leave close process) (λ h. refl) (later reached (leaves refl refl)) refl

start_state-start_example :
    start_state ⦃p = toy⦄ clients config (some "dual") (new "api-service" [])
    ≡ unready (start ⦃p = toy⦄ clients config (some "dual") (new "api-service" []))
unfolding api_backend backend_text get_nested lookup get_or
start_state-start_example = start_state-start ⦃p = toy⦄ clients config (some "dual") (λ h. cc)
