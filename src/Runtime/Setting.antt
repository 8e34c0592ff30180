-- ===== src/Runtime/Setting.antt =====
-- common/cloudrm/runtime.py: `_event_backend`, and how services/api_service/main.py reads the same
-- setting. `env` is `os.environ.get("EVENT_BACKEND")`.
use cloud_multi_agent_manage.Prelude.{
  String, Bool, Option, none, some, ◌≡◌, ◌≢◌, ◌⊎◌, inl, inr, [], ◌∷◌, str_eq, true, false, refl,
  if◌then◌else◌,
}
use cloud_multi_agent_manage.Value.{Value, str}
use cloud_multi_agent_manage.Platform.{Platform, Result, ok, err, value_error}
use cloud_multi_agent_manage.Python.{text_of, is_one_of, get_nested}
use cloud_multi_agent_manage.Exec.{Backend, rabbitmq, kafka, dual, other}

abbrev pub backend_of : String → Backend
backend_of t =
    if str_eq t "rabbitmq"
    then rabbitmq
    else if str_eq t "kafka"
    then kafka
    else if str_eq t "dual"
    then dual
    else other

-- `backend in {"", "${event_backend}", "$event_backend"}`: not set, or a variable left as it is.
abbrev pub is_unset : String → Bool
is_unset t = is_one_of t ("" ∷ "${event_backend}" ∷ "$event_backend" ∷ [])

-- `if backend not in {…}: raise ValueError`
abbrev pub supported : Backend → Result Backend
supported other = err value_error
supported b = ok b

abbrev pub or_default : Option String → String → String
or_default none t = t
or_default (some u) t = u

abbrev Agree : Result Backend → Backend → Type 0
Agree r b = (r ≡ ok b) × (b ≢ other) ⊎ (r ≡ err value_error) × (b ≡ other)

agree :
    (unset : Bool) (b : Backend)
    → Agree (if unset then ok rabbitmq else supported b) (if unset then rabbitmq else b)
agree true b = inl (refl, λ h. cc)
agree false rabbitmq = inl (refl, λ h. cc)
agree false kafka = inl (refl, λ h. cc)
agree false dual = inl (refl, λ h. cc)
agree false other = inr (refl, refl)

module _ ⦃p : Platform⦄ where
  open p use {F}

  -- The text that both read: the variable, or else the configured value, or else "rabbitmq".
  unfoldable pub backend_text : Value F → Option String → String
  backend_text config env =
      let configured =
        p.lower
          (p.strip (text_of (get_nested config ("system" ∷ "event_backend" ∷ []) (str "")))) in
      p.lower (p.strip (or_default env (if str_eq configured "" then "rabbitmq" else configured)))

  unfoldable pub event_backend : Value F → Option String → Result Backend
  event_backend config env =
      let backend = backend_text config env in
      if is_unset backend then ok rabbitmq else supported (backend_of backend)

  -- The API does not refuse an unsupported value.
  unfoldable pub api_backend : Value F → Option String → Backend
  api_backend config env =
      let backend = backend_text config env in
      if is_unset backend then rabbitmq else backend_of backend

  -- The API and the services read the same backend where the services accept the setting; where they
  -- refuse to start, the API takes it as a backend that is none of the three.
  pub api_backend-eq-event_backend :
      (config : Value F) (env : Option String)
      → (event_backend config env ≡ ok (api_backend config env)) × (api_backend config env ≢ other)
        ⊎ (event_backend config env ≡ err value_error) × (api_backend config env ≡ other)
  unfolding event_backend api_backend
  api_backend-eq-event_backend config env =
      let t = backend_text config env in agree (is_unset t) (backend_of t)
