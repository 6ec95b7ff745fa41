-- ===== src/System/Registry.antt =====
-- nla-system-database.mjs: the registry of models and providers, and imports by the operator.
use next_level_agent.System.Database.{exists_in}
use next_level_agent.Base.{
  ℕ, String, Bool, true, false, not, ◌&&◌, ◌||◌, Option, none, some, List, [], ◌∷◌, all, eqb, Dict,
  lookup, insert, if◌then◌else◌,
}
use next_level_agent.Base.Result.{Result, ok, ◌>>◌, throw_if}
use next_level_agent.Base.Order.{◌or_else◌}
use next_level_agent.Pools.File.{RawFacts, RawPool, RawModels, fits, validate_model_pools}
use next_level_agent.Evaluations.Scores.{Scores}
use next_level_agent.Evaluations.Records.{Store, validate_evaluation_store}
use next_level_agent.System.Names.{
  SystemError, failed, Host, pool_result, evaluation_result, valid_binding, is_identifier,
  is_free_text,
}
use next_level_agent.System.Tables.{Database, Facts, ModelRow, no_facts}
use next_level_agent.System.Database.{Outcome, writing, checked}

-- A record of an import, and the record with its binding; its values passed the tests of types.
pub record ImportRecord : Type 0 where
  pub scores : Option Scores
  pub facts : Option Facts
  pub notes : Dict String

abbrev pub statuses : List String
statuses = "enabled" ∷ "disabled" ∷ []

-- { id: binding, ...facts }
raw_facts : String → Facts → RawFacts
raw_facts binding f = record {
  id = some binding;
  status = f.status;
  context_window = f.context_window;
  input_cost = f.input_cost;
  output_cost = f.output_cost;
  availability = f.availability;
}

import_pool : String → Facts → RawPool
unfolding raw_facts
import_pool binding f = record {
  enabled = some true;
  selection_mode = none;
  selection_policy = none;
  preferred_providers = none;
  minimum_score = none;
  selection_weights = none;
  runtime = none;
  models = RawModels.listed (binding ∷ []);
  model_facts = some ((binding, raw_facts binding f) ∷ []);
  model_metadata = none;
}

is_zero : Option ℕ → Bool
is_zero none = false
is_zero (some n) = eqb n 0

check_facts : Host → String → Option Facts → Result SystemError (Unit {0})
unfolding fits is_zero pool_result import_pool validate_model_pools
check_facts host binding none = ok tt
check_facts host binding (some f) =
    throw_if (not (fits statuses f.status)) (failed "status must be enabled or disabled")
    >> throw_if (is_zero f.context_window) (failed "context_window must be a positive integer")
    >> pool_result
        (validate_model_pools host.is_role_id (("model_import", import_pool binding f) ∷ []))

check_scores : Host → String → Option Scores → Result SystemError (Unit {0})
unfolding evaluation_result validate_evaluation_store
check_scores host binding none = ok tt
check_scores host binding (some scores) =
    evaluation_result (validate_evaluation_store host.trim ((binding, scores) ∷ [])) >> ok tt

is_note : Host → String × String → Bool
unfolding is_identifier is_free_text
is_note host note = is_identifier note.0 && is_free_text host 4000 note.1

unfoldable pub validate_import : Host → Dict ImportRecord → Result SystemError (Unit {0})
unfolding valid_binding check_scores check_facts is_note
validate_import host [] = ok tt
validate_import host ((binding, model) ∷ rest) =
    valid_binding binding
    >> check_scores host binding model.scores
    >> check_facts host binding model.facts
    >> throw_if (not (all (is_note host) model.notes)) (failed "Invalid note")
    >> validate_import host rest

unfoldable pub row_facts : Option ModelRow → Facts
row_facts none = no_facts
row_facts (some row) = row.facts

unfoldable pub facts_in : String → Dict ModelRow → Facts
unfolding lookup row_facts
facts_in binding registry = row_facts (lookup binding registry)

-- The facts after an import: all that are given, with the status from before where none is given.
unfoldable pub merged : Facts → Option Facts → Facts
merged previous none = previous
merged previous (some f) = record f { status = f.status or_else previous.status }

imported_scores : Bool → String → Option Scores → Store → Store
unfolding exists_in insert
imported_scores overwrite binding none table = table
imported_scores overwrite binding (some scores) table =
    if not (exists_in binding table) || overwrite then insert binding scores table else table

insert_notes : Dict String → Dict String → Dict String
unfolding insert
insert_notes [] held = held
insert_notes ((key, text) ∷ rest) held = insert_notes rest (insert key text held)

unfoldable pub notes_of : String → Dict (Dict String) → Dict String
unfolding lookup
notes_of binding notes = elim (lookup binding notes) [ none ↦ [] | some held ↦ held ]

unfoldable pub with_import : Bool → String → ImportRecord → Database → Database
unfolding insert facts_in merged imported_scores insert_notes notes_of
with_import overwrite binding model db = record db {
  registry =
      insert binding
        record {
          facts = merged (facts_in binding db.registry) model.facts;
          source = "operator-import";
        }
        db.registry;
  evaluations = imported_scores overwrite binding model.scores db.evaluations;
  notes = insert binding (insert_notes model.notes (notes_of binding db.notes)) db.notes;
}

-- The database, and the bindings that are new and those that were there.
unfoldable pub import_all :
    Bool → Dict ImportRecord → Database → Database × (List String × List String)
unfolding with_import exists_in
import_all overwrite [] db = (db, ([], []))
import_all overwrite ((binding, model) ∷ rest) db =
    let (after, (inserted, updated)) =
      import_all overwrite rest (with_import overwrite binding model db) in
    (
      after,
      if exists_in binding db.registry
          then (inserted, binding ∷ updated)
          else (binding ∷ inserted, updated),
    )

unfoldable pub import_model_registry :
    Host → Database → Dict ImportRecord → Bool → Outcome (List String × List String)
unfolding validate_import checked writing import_all
import_model_registry host db models overwrite =
    checked db (validate_import host models)
      λ valid. writing db λ m. ok (import_all overwrite models m)
