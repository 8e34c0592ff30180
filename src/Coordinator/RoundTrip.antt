-- ===== src/Coordinator/RoundTrip.antt =====
-- What the coordinator stores of an event is what it reads back.
use cloud_multi_agent_manage.Prelude.{◌≡◌, false, some, arith, str_eq}
use cloud_multi_agent_manage.Value.{Payload, dict}
use cloud_multi_agent_manage.Key.{Key}
use cloud_multi_agent_manage.Platform.{Platform, ok}
use cloud_multi_agent_manage.Platform.Laws.{IsRedis, string}
use cloud_multi_agent_manage.Exec.{World}
use cloud_multi_agent_manage.Coordinator.Proposals.{save_payload, load_payload}

module _ ⦃p : Platform⦄ (laws : IsRedis) where
  open p use {F}
  open laws use {view, write, get_lem, set_lem, view-write_self}

  -- A payload that JSON writes as a text that is not empty and reads back as itself, is what
  -- `load_payload` gives after `save_payload` under the same key.
  pub load_payload-save_payload :
      (k : Key) (d : Payload F) (w : World)
      → p.loads (p.dumps d) ≡ some (dict d)
      → str_eq (p.dumps d) "" ≡ false
      → (load_payload k (save_payload k d w).1).0 ≡ ok (some d)
  unfolding load_payload save_payload
  load_payload-save_payload k d w l n = ground (
    arith,
    set_lem k (p.dumps d) w.redis,
    get_lem k (p.redis_set k (p.dumps d) w.redis),
    view-write_self k (string (p.dumps d)) w.redis,
  )
