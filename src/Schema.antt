-- ===== src/Schema.antt =====
-- common/cloudrm/db.py: `run_migrations`, the tables that the services create when they start.
pub mod Columns
use cloud_multi_agent_manage.Prelude.{String, Bool, true, false, List, [], ◌∷◌}
use cloud_multi_agent_manage.Platform.{Result, ok, err}

-- A column: its name and type, NOT NULL or PRIMARY KEY, and whether it has a DEFAULT.
pub record Column : Type 0 where
  pub name : String
  pub sql_type : String
  pub not_null : Bool
  pub has_default : Bool

-- CREATE TABLE IF NOT EXISTS, and CREATE INDEX IF NOT EXISTS on a column of a table.
pub data Migration : Type 0 where
  create_table : String → List Column → Migration
  create_index : String → String → String → Migration

abbrev required : String → String → Column
required n t = record { name = n; sql_type = t; not_null = true; has_default = false }

abbrev defaulted : String → String → Column
defaulted n t = record { name = n; sql_type = t; not_null = true; has_default = true }

abbrev nullable : String → String → Column
nullable n t = record { name = n; sql_type = t; not_null = false; has_default = false }

abbrev pub tasks_columns : List Column
tasks_columns =
    required "task_id" "UUID"
    ∷ required "correlation_id" "UUID"
    ∷ required "status" "TEXT"
    ∷ required "task_type" "TEXT"
    ∷ required "priority" "INTEGER"
    ∷ required "cpu_required" "DOUBLE PRECISION"
    ∷ required "ram_required_mb" "INTEGER"
    ∷ required "duration_seconds" "DOUBLE PRECISION"
    ∷ required "sla_deadline_seconds" "INTEGER"
    ∷ defaulted "requires_gpu" "BOOLEAN"
    ∷ defaulted "payload" "JSONB"
    ∷ nullable "assigned_node_id" "TEXT"
    ∷ nullable "error" "TEXT"
    ∷ defaulted "created_at" "TIMESTAMPTZ"
    ∷ defaulted "updated_at" "TIMESTAMPTZ"
    ∷ []

abbrev pub events_columns : List Column
events_columns =
    required "event_id" "UUID"
    ∷ required "correlation_id" "UUID"
    ∷ required "event_type" "TEXT"
    ∷ required "source" "TEXT"
    ∷ required "payload" "JSONB"
    ∷ required "occurred_at" "TIMESTAMPTZ"
    ∷ defaulted "created_at" "TIMESTAMPTZ"
    ∷ []

abbrev pub decisions_columns : List Column
decisions_columns =
    required "decision_id" "UUID"
    ∷ required "task_id" "UUID"
    ∷ required "correlation_id" "UUID"
    ∷ nullable "node_id" "TEXT"
    ∷ required "utility" "DOUBLE PRECISION"
    ∷ required "decision_type" "TEXT"
    ∷ required "payload" "JSONB"
    ∷ defaulted "created_at" "TIMESTAMPTZ"
    ∷ []

abbrev pub execution_history_columns : List Column
execution_history_columns =
    required "execution_id" "UUID"
    ∷ required "task_id" "UUID"
    ∷ required "correlation_id" "UUID"
    ∷ nullable "node_id" "TEXT"
    ∷ required "status" "TEXT"
    ∷ nullable "started_at" "TIMESTAMPTZ"
    ∷ nullable "finished_at" "TIMESTAMPTZ"
    ∷ defaulted "details" "JSONB"
    ∷ defaulted "created_at" "TIMESTAMPTZ"
    ∷ []

abbrev pub sla_violations_columns : List Column
sla_violations_columns =
    required "violation_id" "UUID"
    ∷ required "task_id" "UUID"
    ∷ required "correlation_id" "UUID"
    ∷ required "severity" "TEXT"
    ∷ defaulted "details" "JSONB"
    ∷ defaulted "created_at" "TIMESTAMPTZ"
    ∷ []

abbrev pub migrations : List Migration
migrations =
    create_table "tasks" tasks_columns
    ∷ create_table "events" events_columns
    ∷ create_table "decisions" decisions_columns
    ∷ create_table "execution_history" execution_history_columns
    ∷ create_table "sla_violations" sla_violations_columns
    ∷ create_index "idx_tasks_status" "tasks" "status"
    ∷ create_index "idx_events_correlation_id" "events" "correlation_id"
    ∷ []

-- The loop of `run_migrations`; `connection_execute` is what the database does with a statement.
unfoldable pub execute_all : (Migration → Result (Unit {0})) → List Migration → Result (Unit {0})
execute_all connection_execute [] = ok tt
execute_all connection_execute (m ∷ ms) =
    let rest = execute_all connection_execute ms in
    elim (connection_execute m) [ ok u ↦ rest | err x ↦ err x ]

unfoldable pub run_migrations : (Migration → Result (Unit {0})) → Result (Unit {0})
unfolding execute_all
run_migrations connection_execute = execute_all connection_execute migrations
