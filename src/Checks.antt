-- ===== src/Checks.antt =====
-- scripts/validate_runtime.py: the checks of a running stack. What docker, the sockets and the HTTP
-- requests answer is an argument; what the script prints is left out.
mod Stack
pub mod Passed
pub mod Up
unfoldable pub use Stack.*
use Prim.Native.String.{String, ◌++◌}
use text.Mathlib.Text.{starts_with}
use cloud_multi_agent_manage.Prelude.{
  ℕ, zero, suc, Bool, true, false, not, Option, none, some, List, [], ◌∷◌, ◌&&◌, ◌||◌, ◌==◌, ltb,
  leb, str_eq, if◌then◌else◌,
}
use cloud_multi_agent_manage.Prelude.Int.{ℤ, pos, eq_ℤ}
use cloud_multi_agent_manage.Value.{
  Value, Payload, dict, str, int, field, empty, lookup, get_or, is_empty,
}
use cloud_multi_agent_manage.Platform.{
  Platform, Result, ok, err, key_error, type_error, attribute_error, ◌>>=◌,
}
use cloud_multi_agent_manage.Platform.Results.{is_ok}
use cloud_multi_agent_manage.Python.{or_error, is_text, is_one_of, text_of}

abbrev exited : Result Completed → Bool
exited (err e) = false
exited (ok r) = eq_ℤ r.returncode (pos 0)

-- `200 <= status < 300`
abbrev pub is_success : ℕ → Bool
is_success status = leb 200 status && ltb status 300

module _ ⦃p : Platform⦄ where
  open p use {F}

  -- `current["status"]`
  abbrev pub member_of : String → Value F → Result (Value F)
  member_of k (dict d) = or_error (lookup k d) (key_error k)
  member_of k _ = err type_error

  abbrev pub check_compose_config : Outside F → Bool
  check_compose_config o =
      o.has_docker && exited (o.run_command ("docker" ∷ "compose" ∷ "config" ∷ []))

  -- `running`: the stripped lines that are not empty.
  abbrev pub is_running : List String → String → Bool
  is_running [] service = false
  is_running (line ∷ lines) service =
      let rest = is_running lines service in
      (not (str_eq (p.strip line) "") && str_eq (p.strip line) service) || rest

  unfoldable pub missing : List String → List String → List String
  missing lines [] = []
  missing lines (s ∷ services) =
      let rest = missing lines services in if is_running lines s then rest else s ∷ rest

  abbrev pub none_missing : Result Completed → Bool
  none_missing (err e) = false
  none_missing (ok r) = eq_ℤ r.returncode (pos 0) && is_empty (missing r.lines compose_services)

  abbrev pub check_compose_services_running : Outside F → Bool
  check_compose_services_running o = none_missing (o.run_command ps_command)

  -- An answer that is no dict has no `get`.
  abbrev pub is_well : ℕ → Value F → Bool
  is_well status (dict d) =
      is_success status && is_text "ok" (some (get_or "status" (str "unknown") d))
  is_well status _ = false

  abbrev pub well : Result (ℕ × Value F) → Bool
  well (err e) = false
  well (ok (status, payload)) = is_well status payload

  abbrev pub check_http : Outside F → String → Bool
  check_http o url = well (o.get url)

  abbrev succeeded : Result ℕ → Bool
  succeeded (err e) = false
  succeeded (ok status) = is_success status

  abbrev check_plain_http : Outside F → String → Bool
  check_plain_http o url = succeeded (o.get_plain url)

  abbrev check_tcp_port : Outside F → String → ℕ → Bool
  check_tcp_port o host port = is_ok (o.connect host port)

  abbrev is_expected : Option String → String → Bool
  is_expected none output = true
  is_expected (some expected) output = contains expected output

  abbrev answered : Option String → Result Completed → Bool
  answered expected (err e) = false
  answered expected (ok r) =
      eq_ℤ r.returncode (pos 0) && is_expected expected (p.strip (r.stdout ++ r.stderr))

  abbrev check_command : Outside F → List String → Option String → Bool
  check_command o command expected = answered expected (o.run_command command)

  -- How one reading of the task ends the loop, if it does; a reading that raises ends it as well.
  abbrev pub verdict_of : Result (Value F) → Option Bool
  verdict_of (err e) = some false
  verdict_of (ok v) =
      if is_text "done" (some v)
      then some true
      else if is_text "failed" (some v)
      then some false
      else none

  abbrev pub verdict : Result (Value F) → Option Bool
  verdict r = verdict_of (r >>= member_of "status")

  abbrev pub decided : Option Bool → Bool → Bool
  decided (some b) rest = b
  decided none rest = rest

  -- The `for` of `check_event_flow`, from the i-th reading on.
  unfoldable pub poll : (ℕ → Result (Value F)) → ℕ → ℕ → Bool
  poll current i zero = false
  poll current i (suc n) = let rest = poll current (suc i) n in decided (verdict (current i)) rest

  abbrev pub validation_task : Payload F
  validation_task = field "task_type" (str "validation") (
      field "cpu_required" (int (pos 1)) (
        field "ram_required_mb" (int (pos 512)) (
          field "duration_seconds" (int (pos 1))
            (field "priority" (int (pos 3)) (field "sla_deadline_seconds" (int (pos 20)) empty)))))

  abbrev pub followed : Outside F → Result (Value F) → Bool
  followed o (err e) = false
  followed o (ok v) = poll (λ i. o.current i (text_of v)) 0 60

  abbrev pub accepted : Outside F → Result (ℕ × Value F) → Bool
  accepted o (err e) = false
  accepted o (ok (status, created)) =
      let after = followed o (member_of "task_id" created) in
      if status == 200 || status == 202 then after else false

  unfoldable pub check_event_flow : Outside F → Bool
  check_event_flow o = accepted o (o.post validation_task)

  unfoldable pub check_services : Outside F → List (String × String) → Bool
  check_services o [] = true
  check_services o ((name, url) ∷ rest) =
      let others = check_services o rest in
      check_http o (url ++ "/health") && check_http o (url ++ "/ready") && others

  abbrev exec : String → List String → List String
  exec container command = "docker" ∷ "compose" ∷ "exec" ∷ "-T" ∷ container ∷ command

  -- The brokers, the database and Redis.
  unfoldable pub check_dependencies : Outside F → Bool
  check_dependencies o =
      check_command o
        (exec "kafka"
          ("/opt/kafka/bin/kafka-topics.sh" ∷ "--bootstrap-server" ∷ "kafka:9092" ∷ "--list" ∷ []))
        (some "request.created")
      && check_command o (exec "rabbitmq" ("rabbitmq-diagnostics" ∷ "ping" ∷ []))
          (some "Ping succeeded")
      && check_tcp_port o "localhost" 5672
      && check_tcp_port o "localhost" 15672
      && check_command o (exec "postgres" ("pg_isready" ∷ "-U" ∷ "cloudrm" ∷ "-d" ∷ "cloudrm" ∷ []))
          none
      && check_command o (exec "redis" ("redis-cli" ∷ "ping" ∷ [])) (some "PONG")

  unfoldable pub check_monitoring : Outside F → Bool
  check_monitoring o =
      check_plain_http o "http://localhost:9090/-/healthy"
      && check_plain_http o "http://localhost:3000/api/health"

  -- `all(checks)`
  unfoldable pub checks : Outside F → Bool
  unfolding check_dependencies check_services check_event_flow check_monitoring
  checks o =
      check_dependencies o && check_services o services && check_event_flow o && check_monitoring o

  -- The exit code.
  unfoldable pub main : Outside F → ℕ
  unfolding checks
  main o =
      if not (check_compose_config o)
      then 1
      else if not (check_compose_services_running o)
      then 1
      else if checks o
      then 0
      else 1
