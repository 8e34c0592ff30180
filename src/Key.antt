-- ===== src/Key.antt =====
-- The keys of Redis that the services use, one constructor for each f-string of the source.
-- Identifiers hold no colon, so two constructors never print the same key.
use Prim.Native.String.{String}
use cloud_multi_agent_manage.Prelude.{Bool, true, false, str_eq}
use text.Mathlib.Text.{starts_with}

pub data Key : Type 0 where
  -- `task:{id}`, `node:{id}`, `node:{id}:running`
  task node running : String → Key
  -- `queue:waiting`, `queue:waiting:{class}`
  waiting : Key
  class_queue : String → Key
  -- `classified:{id}`, `sla:{id}`, `forecast:{id}`, `forecast:latest`, `decision:made:{id}`
  classified sla forecast : String → Key
  forecast_latest : Key
  decision_made : String → Key
  -- `proposal:{task}:{node}`
  proposal : String → String → Key
  experiment_active experiment_mode : Key
  -- `scaling:last_action_ts`, `scaling:auto_node_sequence`
  last_action_ts auto_node_sequence : Key

-- `node:*`, `node:node-auto-*`, `proposal:{task}:*`, `task:*`
pub data Pattern : Type 0 where
  nodes auto_nodes : Pattern
  proposals : String → Pattern
  tasks : Pattern

-- The glob patterns, as Redis documents them: `*` takes colons too.
unfoldable pub matches : Pattern → Key → Bool
matches nodes (node _) = true
matches nodes (running _) = true
matches auto_nodes (node n) = starts_with n "node-auto-"
matches auto_nodes (running n) = starts_with n "node-auto-"
matches (proposals t) (proposal u _) = str_eq t u
matches tasks (task _) = true
matches _ _ = false
