-- ===== src/System/Database.antt =====
-- nla-system-database.mjs: transactions, the migration and the first start.
use next_level_agent.Base.{
  false, ℕ, String, Bool, true, Option, none, some, List, [], ◌∷◌, any, eqb, ltb, max, Dict, lookup,
  insert, if◌then◌else◌, length,
}
use next_level_agent.Base.Result.{Result, ok, err, ◌>>=◌, ◌>>◌, throw_if}
use next_level_agent.Evaluations.Records.{Store, File, read_valid}
use next_level_agent.System.Tables.{Database, ModelRow, no_facts}
use next_level_agent.System.Names.{SystemError, failed, Host, evaluation_result, provider_of}
use next_level_agent.System.Json.{Json, text, number, boolean}

abbrev pub Outcome : Type 0 → Type 0
Outcome A = Database × Result SystemError A

unfoldable pub committed : {A : Type 0} → Database → Result SystemError (Database × A) → Outcome A
committed before (ok (after, a)) = (after, ok a)
committed before (err e) = (before, err e)

-- BEGIN, the callback, and COMMIT; ROLLBACK when the callback throws. ROLLBACK is SQLite's: it gives back
-- the database that BEGIN found, so a callback that throws has no database of its own here.
unfoldable pub transaction :
    {A : Type 0} → Database → (Database → Result SystemError (Database × A)) → Outcome A
unfolding committed
transaction db callback = committed db (callback db)

-- INSERT OR IGNORE, and INSERT … ON CONFLICT DO NOTHING
unfoldable pub insert_or_ignore {ℓ} : {V : Type ℓ} → String → V → Dict V → Dict V
unfolding lookup insert
insert_or_ignore key new table = elim (lookup key table) [
  | none ↦ insert key new table
  | some held ↦ table
]

-- UPDATE … WHERE key = ?
unfoldable pub update {ℓ} : {V : Type ℓ} → String → (V → V) → Dict V → Dict V
unfolding lookup insert
update key change table = elim (lookup key table) [
  | none ↦ table
  | some held ↦ insert key (change held) table
]

-- SELECT 1 FROM … WHERE key = ?
unfoldable pub exists_in {ℓ} : {V : Type ℓ} → String → Dict V → Bool
unfolding lookup
exists_in key table = elim (lookup key table) [ none ↦ false | some row ↦ true ]

unfoldable pub enable_if_new : Option String → Dict String → Dict String
unfolding insert_or_ignore
enable_if_new none providers = providers
enable_if_new (some provider) providers = insert_or_ignore provider "enabled" providers

-- INSERT OR IGNORE INTO provider_registry SELECT DISTINCT … FROM model_registry
unfoldable pub register_providers : Dict ModelRow → Dict String → Dict String
unfolding enable_if_new provider_of
register_providers [] providers = providers
register_providers ((binding, row) ∷ rest) providers =
    register_providers rest (enable_if_new (provider_of binding) providers)

abbrev pub system_database_version : ℕ
system_database_version = 4

-- SELECT MAX(version), or 0
unfoldable pub newest : List ℕ → ℕ
newest [] = 0
newest (v ∷ vs) = max v (newest vs)

-- What a migration makes of a database that is not newer.
unfoldable pub brought_up : Database → Database
unfolding register_providers
brought_up db = record db {
  providers = register_providers db.registry db.providers;
  versions =
      if any (eqb system_database_version) db.versions
      then db.versions
      else system_database_version ∷ db.versions;
}

unfoldable pub migrate : Database → Result SystemError Database
unfolding newest brought_up
migrate db =
    throw_if (ltb system_database_version (newest db.versions))
      (failed "System database schema is newer than this NLA version")
    >> ok (brought_up db)

unfoldable pub queried :
    {A : Type 0}
    → Database
    → (Database → Result SystemError A)
    → Result SystemError Database
    → Outcome A
queried db query (ok migrated) = (migrated, query migrated)
queried db query (err e) = (db, err e)

-- A function that opens the database, migrates it and reads.
unfoldable pub reading : {A : Type 0} → Database → (Database → Result SystemError A) → Outcome A
unfolding migrate queried
reading db query = queried db query (migrate db)

-- One that migrates and writes in a transaction.
unfoldable pub writing :
    {A : Type 0} → Database → (Database → Result SystemError (Database × A)) → Outcome A
unfolding transaction migrate
writing db callback = transaction db (λ opened. migrate opened >>= callback)

-- What is checked in front of opening the database, and what a second opening does with the first result.
unfoldable pub checked :
    {A B : Type 0} → Database → Result SystemError A → (A → Outcome B) → Outcome B
checked db (ok a) next = next a
checked db (err e) next = (db, err e)

unfoldable pub and_then : {A B : Type 0} → Outcome A → (Database → A → Outcome B) → Outcome B
and_then (db, ok a) next = next db a
and_then (db, err e) next = (db, err e)

-- `persistEvaluationStore`, of a store that was validated
persist_evaluations : Store → Store → Store
unfolding insert
persist_evaluations [] table = table
persist_evaluations ((binding, scores) ∷ rest) table =
    persist_evaluations rest (insert binding scores table)

register_bindings : Store → String → Dict ModelRow → Dict ModelRow
unfolding insert_or_ignore
register_bindings [] source registry = registry
register_bindings ((binding, scores) ∷ rest) source registry =
    register_bindings rest source
      (insert_or_ignore binding record { facts = no_facts; source = source } registry)

unfoldable ensure_default_settings : Dict Json → Dict Json
unfolding insert_or_ignore update
ensure_default_settings settings =
    update "system.database.version" (λ old. number 400)
      (insert_or_ignore "operator_databases.enabled" (boolean true) (
        insert_or_ignore "system.database.driver" (text "builtin-sqlite")
          (insert_or_ignore "system.database.version" (number 400) settings)))

-- The file of scores that is read on the first start, the legacy one if it is there, else the seed, and
-- what stands in it.
pub record Seed : Type 0 where
  pub is_legacy : Bool
  pub file : File

seeded : Host → Seed → Result SystemError Store
unfolding evaluation_result read_valid
seeded host seed = evaluation_result (read_valid host.trim seed.file)

with_initial : Store → String → Database → Database
unfolding persist_evaluations register_bindings insert
with_initial initial source db = record db {
  evaluations = persist_evaluations initial db.evaluations;
  registry = register_bindings initial source db.registry;
  imported = insert "model_evaluations" source db.imported;
}

first_import : Host → Seed → Database → Result SystemError Database
unfolding seeded with_initial insert
first_import host seed db =
    let source = if seed.is_legacy then "legacy-json-migration" else "seed" in
    if eqb (length db.evaluations) 0
    then (seeded host seed >>= λ initial. ok (with_initial initial source db))
    else ok record db { imported = insert "model_evaluations" "existing-sqlite" db.imported }

-- `initializeSystemDatabase`, of a file that passes the integrity check
unfoldable pub initialize_system_database : Host → Seed → Database → Outcome (Unit {0})
unfolding writing first_import ensure_default_settings
initialize_system_database host seed db = writing db λ migrated.
    let db1 = record migrated { settings = ensure_default_settings migrated.settings } in
    elim (lookup "model_evaluations" db1.imported) [
      | some source ↦ ok (db1, tt)
      | none ↦ first_import host seed db1 >>= λ db2. ok (db2, tt)
    ]
