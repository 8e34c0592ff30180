-- ===== src/Environment.antt =====
-- scripts/validate_env.py: the reading of .env and the check of the required variables. A `main` is
-- its exit code: what it prints, and reading the file, are left out.
pub mod Complete
use Prim.Native.String.{String, ◌++◌}
use Prim.Native.Char.{code}
use text.Mathlib.Text.{starts_with}
use cloud_multi_agent_manage.Prelude.{
  ℕ, Bool, true, false, not, Option, none, some, List, [], ◌∷◌, ◌&&◌, ◌||◌, ◌==◌, str_eq,
  if◌then◌else◌,
}
use cloud_multi_agent_manage.Value.{Hash, hash_lookup, hash_insert, is_empty}
use cloud_multi_agent_manage.Platform.{Platform}

abbrev pub required : List String
required =
    "COMPOSE_PROJECT_NAME" ∷ "POSTGRES_USER" ∷ "POSTGRES_PASSWORD" ∷ "POSTGRES_DB" ∷ "DATABASE_URL"
    ∷ "REDIS_URL" ∷ "KAFKA_BOOTSTRAP_SERVERS" ∷ "RABBITMQ_HOST" ∷ "RABBITMQ_PORT"
    ∷ "RABBITMQ_MANAGEMENT_PORT" ∷ "RABBITMQ_DEFAULT_USER" ∷ "RABBITMQ_DEFAULT_PASS"
    ∷ "RABBITMQ_EXCHANGE" ∷ "RABBITMQ_DLX" ∷ "RABBITMQ_RETRY_EXCHANGE" ∷ "RABBITMQ_PREFETCH"
    ∷ "SERVICE_CONFIG" ∷ []

abbrev with_first : String → Option (String × String) → Option (String × String)
with_first c none = none
with_first c (some (key, value)) = some (c ++ key, value)

-- `split("=", 1)`, and none where the text has no "=".
unfoldable pub split_once : String → Option (String × String)
split_once String.[] = none
split_once (String.◌∷◌ c s) =
    let rest = split_once s in
    if code c == b'=' then some ("", s) else with_first (String.◌∷◌ c "") rest

abbrev is_quote : ℕ → Bool
is_quote c = c == b'"' || c == b'\''

abbrev drop_quotes : String → String
drop_quotes String.[] = ""
drop_quotes (String.◌∷◌ c s) =
    let rest = drop_quotes s in if is_quote (code c) then rest else String.◌∷◌ c s

abbrev drop_last_quotes : String → String
drop_last_quotes String.[] = ""
drop_last_quotes (String.◌∷◌ c s) =
    let rest = drop_last_quotes s in
    if is_quote (code c) && str_eq rest "" then "" else String.◌∷◌ c rest

module _ ⦃p : Platform⦄ where
  abbrev add_pair : Option (String × String) → Hash → Hash
  add_pair none values = values
  add_pair (some (key, value)) values =
      hash_insert (p.strip key) (drop_last_quotes (drop_quotes (p.strip value))) values

  -- One turn of the loop of `parse_env_file`.
  unfoldable pub parse_line : String → Hash → Hash
  parse_line line values =
      let stripped = p.strip line in
      if starts_with stripped "#" then values else add_pair (split_once stripped) values

  -- The lines of the file, read into `values`.
  unfoldable pub parse_lines : List String → Hash → Hash
  parse_lines [] values = values
  parse_lines (line ∷ lines) values = parse_lines lines (parse_line line values)

  abbrev text_or_empty : Option String → String
  text_or_empty none = ""
  text_or_empty (some t) = t

  abbrev chosen : Option String → Option String → String
  chosen (some t) u = p.strip t
  chosen none u = p.strip (text_or_empty u)

  -- The environment of the process goes before the file.
  unfoldable pub get_value : Hash → Hash → String → String
  get_value environ values key = chosen (hash_lookup key environ) (hash_lookup key values)

  unfoldable pub missing : Hash → Hash → List String → List String
  missing environ values [] = []
  missing environ values (key ∷ keys) =
      let rest = missing environ values keys in
      if str_eq (get_value environ values key) "" then key ∷ rest else rest

  abbrev is_some : Option String → Bool
  is_some none = false
  is_some (some t) = true

  abbrev pub is_set : Hash → Hash → String → Bool
  is_set environ values key = is_some (hash_lookup key values) || is_some (hash_lookup key environ)

  abbrev is_set_blank : Hash → Hash → String → Bool
  is_set_blank environ values key =
      is_set environ values key && str_eq (get_value environ values key) ""

  abbrev checked : Hash → Hash → ℕ
  checked environ values =
      if not (is_empty (missing environ values required))
      then 1
      else if is_set_blank environ values "COMPOSE_PROJECT_NAME"
      then 1
      else if is_set_blank environ values "PROJECT_NAME"
      then 1
      else if str_eq (get_value environ values "COMPOSE_PROJECT_NAME") "."
      then 1
      else 0

  -- The exit code, with the environment, and the lines of .env where the file exists.
  unfoldable pub exit_code : Hash → Option (List String) → ℕ
  exit_code environ none = 1
  exit_code environ (some lines) = checked environ (parse_lines lines [])
