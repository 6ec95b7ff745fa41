-- ===== src/System/Active.antt =====
-- nla-system-database.mjs: theorems on sequences of calls on the orchestras.
use next_level_agent.System.Lookups.{
  exists_in-insert_or_ignore, exists_in-insert_or_ignore_self, exists_in-insert, exists_in-update,
  lookup-ignored, lookup-new, lookup-update_other, lookup-update, neither,
}
use next_level_agent.System.Database.{exists_in}
use next_level_agent.Base.{
  String, Bool, true, false, Option, none, some, List, [], ◌∷◌, ◌≡◌, refl, ◌∙◌, Dict, lookup,
  insert, ◌||◌, ◌⊎◌, inl, inr, Bool-cases, if◌then◌else◌, ◌==◌, eq_iff, arith,
}
use next_level_agent.System.Names.{Host}
use next_level_agent.System.Tables.{Config, Database, OrchestraRow}
use next_level_agent.System.Database.{brought_up, insert_or_ignore, update}
use next_level_agent.System.Orchestras.{Serial, or_go, with_go, with_new, with_config, with_active}
use next_level_agent.System.Calls.{Call, step, run, changes, step_keeps}

names_in {ℓ} : {V : Type ℓ} → Option String → Dict V → Bool
unfolding exists_in
names_in none table = true
names_in (some name) table = exists_in name table

-- The active orchestra, if there is one, is in the table.
unfoldable pub names_a_row : Database → Bool
unfolding names_in
names_a_row db = names_in db.active db.orchestras

module _ (row : OrchestraRow) (table : Dict OrchestraRow) where
  names_in-go :
      (active : Option String)
      → names_in active table ≡ true
      → names_in (some (or_go active)) (insert_or_ignore "go" row table) ≡ true
  unfolding names_in or_go
  names_in-go none h = exists_in-insert_or_ignore_self "go" row table
  names_in-go (some name) h = exists_in-insert_or_ignore "go" name row table h

  names_in-insert :
      (name : String) (active : Option String)
      → names_in active table ≡ true
      → names_in active (insert name row table) ≡ true
  unfolding names_in
  names_in-insert name none h = refl
  names_in-insert name (some asked) h = exists_in-insert name asked row table h

names_in-update :
    (name : String) (f : OrchestraRow → OrchestraRow) (table : Dict OrchestraRow)
    (active : Option String)
    → names_in active table ≡ true
    → names_in active (update name f table) ≡ true
unfolding names_in
names_in-update name f table none h = refl
names_in-update name f table (some asked) h = exists_in-update name asked f table h

names_in-active :
    (name : String) (table : Dict OrchestraRow) (active : Option String)
    → exists_in name table ≡ true
    → names_in (elim active [ none ↦ none | some old ↦ some name ]) table ≡ true
unfolding names_in
names_in-active name table none h = refl
names_in-active name table (some old) h = h

-- From a database whose active orchestra is in the table, or that has none, every sequence of calls
-- ends in such a database.
pub run-names_a_row :
    (host : Host) (serial : Serial) (calls : List Call) (db : Database)
    → names_a_row db ≡ true
    → names_a_row (run host serial db calls) ≡ true
unfolding run
run-names_a_row host serial [] db h = h
run-names_a_row host serial (call ∷ calls) db h =
    run-names_a_row host serial calls (step host serial db call) (
      unfold names_a_row brought_up with_go with_new with_active with_config in
      step_keeps host serial (λ d. names_a_row d ≡ true) db h h
        (λ config. names_in-go _ db.orchestras db.active h)
        (λ name config fresh. names_in-insert _ db.orchestras name db.active h)
        (λ name known. names_in-active name db.orchestras db.active known) call
        λ name config changed. names_in-update name _ db.orchestras db.active h)

changes_apart :
    (call : Call) (name asked : String)
    → changes call name ≡ true
    → changes call asked ≡ false
    → (name == asked) ≡ false
unfolding changes
changes_apart call name asked h k = ground (arith, eq_iff name asked)

-- Whether a call of the sequence replaces the configuration of the orchestra.
unfoldable pub any_changes : List Call → String → Bool
unfolding changes
any_changes [] asked = false
any_changes (call ∷ calls) asked = changes call asked || any_changes calls asked

-- The orchestra is there, and its source is the one it had.
Stays : OrchestraRow → Option OrchestraRow → Type 0
Stays row found = (after : OrchestraRow) × (found ≡ some after) × (after.source ≡ row.source)

Stays-lookup :
    (row v : OrchestraRow) {found : Option OrchestraRow}
    → found ≡ some v
    → v.source ≡ row.source
    → Stays row found
unfolding Stays
Stays-lookup row v h same = (v, h, same)

source_kept :
    (here : Bool) (config : Config) (v : OrchestraRow)
    → (if here then record v { config = config } else v).source ≡ v.source
source_kept true config v = refl
source_kept false config v = refl

run-Stays :
    (host : Host) (serial : Serial) (calls : List Call) (db : Database) (name : String)
    (row : OrchestraRow)
    → Stays row (lookup name db.orchestras)
    → Stays row (lookup name (run host serial db calls).orchestras)
unfolding run Stays
run-Stays host serial [] db name row h = h
run-Stays host serial (call ∷ calls) db name row (v, h, same) =
    run-Stays host serial calls (step host serial db call) name row (
      unfold brought_up with_go with_new with_active with_config in
      step_keeps host serial (λ d. Stays row (lookup name d.orchestras)) db (v, h, same)
        (v, h, same)
        (λ config. Stays-lookup row _ (lookup-ignored "go" name _ db.orchestras v h) same)
        (λ other config fresh.
          Stays-lookup row _ (lookup-new other name v _ db.orchestras fresh h) same)
        (λ other known. (v, h, same)) call
        λ other config changed.
          Stays-lookup row _ (lookup-update other name _ db.orchestras v h)
            (source_kept (other == name) config v ∙ same))

run-unchanged :
    (host : Host) (serial : Serial) (calls : List Call) (db : Database) (name : String)
    (row : OrchestraRow)
    → lookup name db.orchestras ≡ some row
    → any_changes calls name ≡ false
    → lookup name (run host serial db calls).orchestras ≡ some row
unfolding run any_changes
run-unchanged host serial [] db name row h none_changes = h
run-unchanged host serial (call ∷ calls) db name row h none_changes =
    let (apart, later) = neither (changes call name) (any_changes calls name) none_changes in
    run-unchanged host serial calls (step host serial db call) name row
      (unfold brought_up with_go with_new with_active with_config in
        step_keeps host serial (λ d. lookup name d.orchestras ≡ some row) db h h
          (λ config. lookup-ignored "go" name _ db.orchestras row h)
          (λ other config fresh. lookup-new other name row _ db.orchestras fresh h)
          (λ other known. h) call
          λ other config changed.
            lookup-update_other other name _ db.orchestras
              (changes_apart call other name changed apart)
            ∙ h)
      later

-- No sequence of calls removes an orchestra or changes its source, and only its own update, or for `go`
-- the reload, changes its row at all: with saving under its name, starting again, activating and reading
-- it stays as it is.
pub run-lookup :
    (host : Host) (serial : Serial) (calls : List Call) (db : Database) (name : String)
    (row : OrchestraRow)
    → lookup name db.orchestras ≡ some row
    → ((after : OrchestraRow) × (lookup name (run host serial db calls).orchestras ≡ some after)
        × (after.source ≡ row.source))
      × ((any_changes calls name ≡ true)
          ⊎ (lookup name (run host serial db calls).orchestras ≡ some row))
unfolding Stays
run-lookup host serial calls db name row h = (
  run-Stays host serial calls db name row (row, h, refl),
  elim (Bool-cases (any_changes calls name)) [
    | inl changed ↦ inl changed
    | inr unchanged ↦ inr (run-unchanged host serial calls db name row h unchanged)
  ],
)
