-- ===== src/Schema/Columns.antt =====
-- The columns that the statements of common/cloudrm/persistence.py and services/api_service/main.py
-- name, against the tables of common/cloudrm/db.py.
use cloud_multi_agent_manage.Prelude.{
  String, ◌≡◌, refl, Bool, inl, inr, str_eq, eq_iff, Bool-cases, true, not, List, [], ◌∷◌, map,
  ◌++◌, ◌&&◌, ◌||◌, All, arith, if◌then◌else◌,
}
use cloud_multi_agent_manage.Value.{Value}
use cloud_multi_agent_manage.Python.{is_one_of}
use cloud_multi_agent_manage.Persistence.{allowed, allowed_fields}
use cloud_multi_agent_manage.Statement.{
  Statement, insert_event, insert_task, update_task, insert_decision, insert_execution,
  insert_violation, fail_running,
}
use cloud_multi_agent_manage.Schema.{
  Column, Migration, create_table, create_index, tasks_columns, migrations,
}

-- The columns of an INSERT, in its order.
abbrev pub event_columns : List String
event_columns =
    "event_id" ∷ "correlation_id" ∷ "event_type" ∷ "source" ∷ "payload" ∷ "occurred_at" ∷ []

abbrev pub task_columns : List String
task_columns =
    "task_id" ∷ "correlation_id" ∷ "status" ∷ "task_type" ∷ "priority" ∷ "cpu_required"
    ∷ "ram_required_mb" ∷ "duration_seconds" ∷ "sla_deadline_seconds" ∷ "requires_gpu" ∷ "payload"
    ∷ "created_at" ∷ "updated_at" ∷ []

abbrev pub decision_columns : List String
decision_columns =
    "decision_id" ∷ "task_id" ∷ "correlation_id" ∷ "node_id" ∷ "utility" ∷ "decision_type"
    ∷ "payload" ∷ []

abbrev pub execution_columns : List String
execution_columns =
    "execution_id" ∷ "task_id" ∷ "correlation_id" ∷ "node_id" ∷ "status" ∷ "started_at"
    ∷ "finished_at" ∷ "details" ∷ []

abbrev pub violation_columns : List String
violation_columns = "violation_id" ∷ "task_id" ∷ "correlation_id" ∷ "severity" ∷ "details" ∷ []

-- The columns that an UPDATE sets, the names of `values` and then updated_at.
abbrev pub assigned : {F : Type 0} → List (String × Value F) → List String
assigned values = map (λ v. v.0) values ++ ("updated_at" ∷ [])

abbrev has_column : List Column → String → Bool
has_column cs n = is_one_of n (map (λ c. c.name) cs)

abbrev known : List Column → List String → Bool
known cs [] = true
known cs (n ∷ ns) = let rest = known cs ns in has_column cs n && rest

-- A NOT NULL column without a default is given.
abbrev given : List String → List Column → Bool
given ns [] = true
given ns (c ∷ cs) =
    let rest = given ns cs in (not c.not_null || c.has_default || is_one_of c.name ns) && rest

-- The table takes the INSERT: it has the columns, and every column that must be given is.
abbrev inserts : List Column → List String → Bool
inserts cs ns = known cs ns && given ns cs

-- The columns of the table of that name, none where no migration creates it: a second CREATE TABLE
-- IF NOT EXISTS would change nothing.
unfoldable pub table : String → List Migration → List Column
table n [] = []
table n (create_table t cs ∷ l) = let rest = table n l in if str_eq t n then cs else rest
table n (create_index i t c ∷ l) = table n l

-- A text that is one of a list is one of every list that has the first one's members.
is_one_of-All :
    (t : String) (xs ys : List String)
    → All (λ x. is_one_of x ys ≡ true) xs
    → is_one_of t xs ≡ true
    → is_one_of t ys ≡ true
is_one_of-All t [] ys a h = cc
is_one_of-All t (x ∷ xs) ys (a, rest) h = elim (Bool-cases (str_eq t x)) [
  | inl e ↦ rw ((eq_iff t x).0 e) a
  | inr e ↦ is_one_of-All t xs ys rest (ground arith)
]

has_column-allowed : (k : String) → is_one_of k allowed ≡ true → has_column tasks_columns k ≡ true
has_column-allowed k h =
    is_one_of-All k allowed (map (λ c. c.name) tasks_columns) (refl, (refl, (refl, (refl, tt)))) h

module _ {F : Type 0} where
  -- The statement fits the tables that a list of migrations creates.
  unfoldable pub fits : List Migration → Statement F → Bool
  unfolding table
  fits l (insert_event _ _ _ _ _ _) = inserts (table "events" l) event_columns
  fits l (insert_task _) = inserts (table "tasks" l) task_columns
  fits l (update_task values _ _) = known (table "tasks" l) (assigned values)
  fits l (insert_decision _ _ _ _ _ _) = inserts (table "decisions" l) decision_columns
  fits l (insert_execution _ _ _ _ _ _ _) = inserts (table "execution_history" l) execution_columns
  fits l (insert_violation _ _ _ _) = inserts (table "sla_violations" l) violation_columns
  fits l (fail_running _ _) = known (table "tasks" l) ("status" ∷ "error" ∷ "updated_at" ∷ [])

  -- `update_task` sets what passed the filter; every other statement is fixed.
  abbrev pub IsFiltered : Statement F → Type 0
  IsFiltered (update_task values _ _) = (d : List (String × Value F)) × (values ≡ allowed_fields d)
  IsFiltered _ = Unit

  known-assigned :
      (d : List (String × Value F)) → known tasks_columns (assigned (allowed_fields d)) ≡ true
  known-assigned [] = refl
  known-assigned ((k, v) ∷ d) = ground (arith, has_column-allowed k, known-assigned d)

  -- Every statement that the services send fits the tables that their migrations create: it names
  -- columns that are there, and an INSERT gives every column that must not be null. The columns of
  -- `update_task` are those that pass its filter, whatever fields it is given.
  pub fits_lem : (s : Statement F) → IsFiltered s → fits migrations s ≡ true
  unfolding fits
  fits_lem (insert_event _ _ _ _ _ _) h = refl
  fits_lem (insert_task _) h = refl
  fits_lem (update_task values n t) (d, e) = rw e (known-assigned d)
  fits_lem (insert_decision _ _ _ _ _ _) h = refl
  fits_lem (insert_execution _ _ _ _ _ _ _) h = refl
  fits_lem (insert_violation _ _ _ _) h = refl
  fits_lem (fail_running _ _) h = refl
