-- ===== src/Config.antt =====
-- common/cloudrm/config.py: `_expand_env`. `raw` is what the YAML file holds.
use cloud_multi_agent_manage.Prelude.{if◌then◌else◌}
use cloud_multi_agent_manage.Value.{
  Value, Items, Payload, null, bool, int, float, str, list, dict, nil, cons, empty, field,
}
use cloud_multi_agent_manage.Platform.{Platform}
use cloud_multi_agent_manage.Python.{truthy}

module _ ⦃p : Platform⦄ where
  open p use {F}

  unfoldable mutual
    pub expand_env : Value F → Value F
    expand_env (str t) = str (p.expandvars t)
    expand_env (list l) = list (expand_items l)
    expand_env (dict d) = dict (expand_fields d)
    expand_env null = null
    expand_env (bool b) = bool b
    expand_env (int z) = int z
    expand_env (float x) = float x

    pub expand_items : Items F → Items F
    expand_items nil = nil
    expand_items (cons v l) = cons (expand_env v) (expand_items l)

    pub expand_fields : Payload F → Payload F
    expand_fields empty = empty
    expand_fields (field k v d) = field k (expand_env v) (expand_fields d)

  -- `yaml.safe_load(stream) or {}`, expanded.
  unfoldable pub load_config : Value F → Value F
  load_config raw = expand_env (if truthy raw then raw else dict empty)
