-- ===== src/System/Models.antt =====
-- nla-system-database.mjs: the health and the evaluations of models, and the databases of the operator.
use next_level_agent.System.Database.{exists_in}
use next_level_agent.Base.{
  ◌++◌, ℕ, String, Bool, true, false, not, ◌&&◌, ◌||◌, Option, none, some, List, [], ◌∷◌, map,
  select, leb, ltb, eqb, length, ◌==◌, Dict, lookup, insert, erase, if◌then◌else◌,
}
use next_level_agent.Base.Result.{Result, ok, err, ◌>>=◌, ◌>>◌, throw_if}
use next_level_agent.Base.Order.{sort_by}
use next_level_agent.Base.Texts.{includes, unique}
use next_level_agent.Base.TextOrder.{text_le}
use next_level_agent.Pools.Binding.{character_count}
use next_level_agent.Evaluations.Scores.{Scores, Measured, update_evaluation_scores}
use next_level_agent.Evaluations.Records.{Store, scores_in, or_no_scores}
use next_level_agent.System.Names.{
  SystemError, failed, Host, evaluation_result, valid_binding, is_identifier, is_free_text,
}
use next_level_agent.System.Json.{Json, boolean}
use next_level_agent.System.Tables.{Database, HealthRow, no_facts}
use next_level_agent.System.Database.{
  Outcome, reading, writing, checked, and_then, insert_or_ignore,
}

-- ORDER BY binding
by_binding : String × Scores → String × Scores → Bool
by_binding a b = text_le a.0 b.0

unfoldable load_system_evaluations : Database → Outcome Store
unfolding reading sort_by by_binding
load_system_evaluations db = reading db λ m. ok (sort_by by_binding m.evaluations)

unfoldable with_evaluation : String → Scores → Database → Database
unfolding insert insert_or_ignore
with_evaluation binding scores db = record db {
  evaluations = insert binding scores db.evaluations;
  registry = insert_or_ignore binding record { facts = no_facts; source = "runtime" } db.registry;
}

unfoldable pub record_system_evaluation : Database → String → Measured → Outcome Store
unfolding valid_binding checked writing evaluation_result update_evaluation_scores or_no_scores
    lookup with_evaluation sort_by by_binding
record_system_evaluation db binding current = checked db (valid_binding binding) λ valid.
    writing db λ m.
      evaluation_result (update_evaluation_scores (scores_in binding m.evaluations) current)
      >>= λ scores.
          let after = with_evaluation binding scores m in
          ok (after, sort_by by_binding after.evaluations)

-- A cooldown that is over.
unfoldable is_over : ℕ → HealthRow → Bool
is_over now row =
    row.state == "cooling" && elim row.until [ none ↦ false | some time ↦ leb time now ]

drop_over : ℕ → Dict HealthRow → Dict HealthRow
unfolding is_over
drop_over now rows = select (λ (entry : String × HealthRow). not (is_over now entry.1)) rows

unfoldable drop_all_over : ℕ → Dict (Dict HealthRow) → Dict (Dict HealthRow)
unfolding drop_over
drop_all_over now [] = []
drop_all_over now ((binding, rows) ∷ rest) = (binding, drop_over now rows) ∷ drop_all_over now rest

with_health : Dict (Dict HealthRow) → Database → Database
with_health health db = record db { health = health }

-- The rows, each with its binding and its endpoint.
abbrev HealthEntry : Type 0
HealthEntry = String × (String × HealthRow)

health_entries : Dict (Dict HealthRow) → List HealthEntry
health_entries [] = []
health_entries ((binding, rows) ∷ rest) =
    map (λ (row : String × HealthRow). (binding, row)) rows ++ health_entries rest

-- ORDER BY binding, endpoint
by_binding_endpoint : HealthEntry → HealthEntry → Bool
by_binding_endpoint a b = if a.0 == b.0 then text_le a.1.0 b.1.0 else text_le a.0 b.0

-- The cooldowns that are over are deleted, and the other rows are listed.
unfoldable load_system_health : Database → ℕ → Outcome (List HealthEntry)
unfolding reading and_then drop_all_over with_health health_entries sort_by by_binding_endpoint
load_system_health db now =
    and_then (reading db λ m. ok (drop_all_over now m.health))
      λ m health. (with_health health m, ok (sort_by by_binding_endpoint (health_entries health)))

endpoints : String → Dict (Dict HealthRow) → Dict HealthRow
unfolding lookup
endpoints binding health = elim (lookup binding health) [ none ↦ [] | some rows ↦ rows ]

is_lifted : Option HealthRow → Bool
is_lifted none = true
is_lifted (some row) = row.state == "available"

stored_state : Option HealthRow → Bool
unfolding includes
stored_state none = false
stored_state (some row) = includes ("cooling" ∷ "quarantined" ∷ []) row.state

put_health : String → Option HealthRow → Dict HealthRow → Dict HealthRow
unfolding insert
put_health endpoint none rows = rows
put_health endpoint (some row) rows = insert endpoint row rows

unfoldable pub save_system_health :
    Database → String → String → Option HealthRow → Outcome (Unit {0})
unfolding valid_binding character_count checked writing is_lifted stored_state put_health endpoints
    insert erase with_health
save_system_health db binding endpoint health = checked db (valid_binding binding) λ valid.
    checked db
      (throw_if (ltb 2048 (character_count endpoint)) (failed "Invalid model health endpoint"))
      λ short. writing db λ m.
        let rows = endpoints binding m.health in
        if is_lifted health
        then ok (with_health (insert binding (erase endpoint rows) m.health) m, tt)
        else if not (stored_state health)
        then err (failed "Invalid persisted model health state")
        else ok (with_health (insert binding (put_health endpoint health rows) m.health) m, tt)

-- `userDatabaseFile`: the test of the name
unfoldable pub user_database_name : String → Result SystemError String
unfolding is_identifier
user_database_name name =
    if not (is_identifier name) || name == "system"
    then err (failed "Database name must be a lowercase identifier other than system")
    else ok name

is_true : Option Json → Bool
is_true (some (boolean b)) = b
is_true _ = false

with_catalog : String → String → Database → Database
unfolding insert
with_catalog name purpose db = record db { catalog = insert name purpose db.catalog }

-- The entry in the catalogue; the file that is made for it is left out.
unfoldable pub create_user_database : Host → Database → String → String → Outcome (String × String)
unfolding user_database_name is_free_text checked writing is_true lookup exists_in with_catalog
create_user_database host db name purpose = checked db (user_database_name name) λ valid.
    checked db
      (throw_if (not (is_free_text host 500 purpose))
        (failed "Database purpose must be 1-500 non-secret characters"))
      λ good. writing db λ m.
        throw_if (not (is_true (lookup "operator_databases.enabled" m.settings)))
          (failed "Operator databases are disabled")
        >> throw_if (exists_in name m.catalog) (failed "Database already exists")
        >> ok (with_catalog name (host.trim purpose) m, (name, host.trim purpose))

-- A column whose fields are known; `kind` is its type in upper case.
pub record Column : Type 0 where
  pub name : String
  pub kind : String
  pub primary_key : Bool
  pub not_null : Bool

check_columns : List Column → Result SystemError (Unit {0})
unfolding includes is_identifier
check_columns [] = ok tt
check_columns (c ∷ cs) =
    throw_if (not (includes ("TEXT" ∷ "INTEGER" ∷ "REAL" ∷ "BLOB" ∷ []) c.kind))
      (failed "Column type must be TEXT, INTEGER, REAL, or BLOB")
    >> throw_if (not (is_identifier c.name)) (failed "Column name must be a lowercase identifier")
    >> check_columns cs

column_names : List Column → List String
column_names columns = map (λ (c : Column). c.name) columns

-- The tests of `createUserTable` on the columns
unfoldable validate_columns : List Column → Result SystemError (Unit {0})
unfolding check_columns column_names
validate_columns columns =
    throw_if (eqb (length columns) 0 || ltb 64 (length columns))
      (failed "Table columns must be an array of 1-64 columns")
    >> check_columns columns
    >> throw_if (not (eqb (length (unique (column_names columns))) (length columns)))
        (failed "Table column names must be unique")

-- The tests in front of the `CREATE TABLE` in the file of the database; `is_file` says whether it exists.
unfoldable create_user_table :
    Database → (String → Bool) → String → String → List Column → Outcome (Unit {0})
unfolding user_database_name validate_columns checked and_then reading is_true lookup exists_in
    is_identifier
create_user_table db is_file database table columns =
    checked db (user_database_name database) λ name. checked db (validate_columns columns) λ good.
      and_then
        (reading db λ m.
          throw_if (not (is_true (lookup "operator_databases.enabled" m.settings)))
            (failed "Operator databases are disabled")
          >> throw_if (not (exists_in name m.catalog) || not (is_file name))
              (failed "Unknown database"))
        λ m known. (
          m,
          throw_if (not (is_identifier table)) (failed "Table name must be a lowercase identifier"),
        )
