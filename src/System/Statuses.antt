-- ===== src/System/Statuses.antt =====
-- nla-system-database.mjs: theorems on the status of a model over imports.
use next_level_agent.System.Lookups.{lookup-update, neither, exists_in-lookup, not-false}
use next_level_agent.System.Database.{exists_in}
use next_level_agent.Base.{
  String, Bool, true, false, not, ◌&&◌, ◌||◌, ◌≡◌, refl, sym, ap, ◌∙◌, subst, Option, none, some,
  List, [], ◌∷◌, Dict, lookup, lookup-insert, ◌==◌, eq_iff, eq_refl, if◌then◌else◌, Bool-cases, inl,
  inr, arith,
}
use next_level_agent.Base.Result.{ok, throw_if, ok_injective}
use next_level_agent.Base.Texts.{includes}
use next_level_agent.System.Names.{Host, valid_binding}
use next_level_agent.System.Tables.{Database, Facts, ModelRow}
use next_level_agent.System.Database.{Outcome, brought_up, writing}
use next_level_agent.System.Registry.{
  ImportRecord, statuses, row_facts, facts_in, merged, with_import, import_all,
  import_model_registry, validate_import,
}
use next_level_agent.System.Listing.{with_model_status, set_model_status}
use next_level_agent.System.Writes.{checked_keeps, writing_keeps, checked-eq-ok, guarded-eq-ok}

abbrev pub status_in : String → Database → Option String
status_in binding db = (facts_in binding db.registry).status

gives : ImportRecord → Bool
gives model = elim model.facts [
  | none ↦ false
  | some f ↦ elim f.status [ none ↦ false | some s ↦ true ]
]

-- Whether the import gives a status to the model.
unfoldable pub gives_status : String → Dict ImportRecord → Bool
unfolding gives
gives_status binding [] = false
gives_status binding ((key, model) ∷ rest) =
    (key == binding && gives model) || gives_status binding rest

merged-status :
    (previous : Facts) (model : ImportRecord)
    → gives model ≡ false
    → (merged previous model.facts).status ≡ previous.status
unfolding gives merged
merged-status previous model h = ground arith

-- The record that the import makes of the row.
imported_row : String → ImportRecord → Dict ModelRow → ModelRow
imported_row key model registry = record {
  facts = merged (facts_in key registry) model.facts;
  source = "operator-import";
}

imported_row-status :
    (key binding : String) (model : ImportRecord) (registry : Dict ModelRow)
    → (key == binding && gives model) ≡ false
    → (row_facts (
        if key == binding
        then some (imported_row key model registry)
        else lookup binding registry)).status
      ≡ (row_facts (lookup binding registry)).status
unfolding row_facts imported_row
imported_row-status key binding model registry h = elim (Bool-cases (key == binding)) [
  | inl same ↦ rw same (
      merged-status (facts_in key registry) model (ground arith)
      ∙ ap (λ k. (facts_in k registry).status) ((eq_iff key binding).0 same)
      ∙ unfold facts_in row_facts in refl)
  | inr other ↦ rw other refl
]

with_import-status :
    (overwrite : Bool) (key binding : String) (model : ImportRecord) (db : Database)
    → (key == binding && gives model) ≡ false
    → status_in binding (with_import overwrite key model db) ≡ status_in binding db
unfolding with_import facts_in imported_row
with_import-status overwrite key binding model db h =
    ap (λ found. (row_facts found).status)
      (lookup-insert key binding (imported_row key model db.registry) db.registry)
    ∙ imported_row-status key binding model db.registry h

import_all-status :
    (overwrite : Bool) (models : Dict ImportRecord) (binding : String) (db : Database)
    → gives_status binding models ≡ false
    → status_in binding (import_all overwrite models db).0 ≡ status_in binding db
unfolding import_all gives_status
import_all-status overwrite [] binding db h = refl
import_all-status overwrite ((key, model) ∷ rest) binding db h =
    let (first, later) = neither (key == binding && gives model) (gives_status binding rest) h in
    import_all-status overwrite rest binding (with_import overwrite key model db) later
    ∙ with_import-status overwrite key binding model db first

import_model_registry-status :
    (host : Host) (db : Database) (models : Dict ImportRecord) (overwrite : Bool) (binding : String)
    → gives_status binding models ≡ false
    → status_in binding (import_model_registry host db models overwrite).0 ≡ status_in binding db
unfolding import_model_registry brought_up
import_model_registry-status host db models overwrite binding h =
    checked_keeps (λ d. status_in binding d ≡ status_in binding db) db (validate_import host models)
      (λ valid. writing db λ m. ok (import_all overwrite models m)) refl
      λ valid good.
        writing_keeps (λ d. status_in binding d ≡ status_in binding db) db
          (λ m. ok (import_all overwrite models m)) refl
          λ after lists returned.
            subst (λ d. status_in binding d ≡ status_in binding db)
              (ap (λ (p : Database × (List String × List String)). p.0) (ok_injective returned))
              (import_all-status overwrite models binding (brought_up db) h)

with_model_status-status :
    (binding status : String) (db : Database)
    → exists_in binding db.registry ≡ true
    → status_in binding (with_model_status binding status db) ≡ some status
unfolding with_model_status facts_in
with_model_status-status binding status db h =
    let (row, e) = exists_in-lookup binding db.registry h in
    let marked : ModelRow → ModelRow =
      λ r. record r { facts = record r.facts { status = some status } } in
    ap (λ found. (row_facts found).status)
      (lookup-update binding binding marked db.registry row e
        ∙ ap (λ b. some (if b then marked row else row)) (eq_refl binding))
    ∙ unfold row_facts in refl

set_model_status-status :
    (db : Database) (binding status : String) {answer : String × String}
    → let done = set_model_status db binding status in
      done.1 ≡ ok answer → status_in binding done.0 ≡ some status
unfolding set_model_status
set_model_status-status db binding status h =
    let (b, good, h1, e1) = checked-eq-ok db (valid_binding binding) _ h in
    let (u, known, h2, e2) = checked-eq-ok db (throw_if (not (includes statuses status)) _) _ h1 in
    let (here, opened, e3, _) =
      guarded-eq-ok db (λ m. not (exists_in binding m.registry)) _
        (with_model_status binding status) (λ m. (binding, status)) h2 in
    subst (λ d. status_in binding d ≡ some status)
      (sym (ap (λ (o : Outcome (String × String)). o.0) (e1 ∙ e2) ∙ e3))
      (with_model_status-status binding status (brought_up db)
        (not-false (exists_in binding (brought_up db).registry) here))

-- A status that the operator sets for a registered model stays, over any import that gives no status to
-- this model, and whatever facts, scores and notes it has for it.
pub import_model_registry-set_model_status :
    (host : Host) (db : Database) (binding status : String) {answer : String × String}
    (models : Dict ImportRecord) (overwrite : Bool)
    → let done = set_model_status db binding status in
      done.1 ≡ ok answer
      → gives_status binding models ≡ false
      → status_in binding (import_model_registry host done.0 models overwrite).0 ≡ some status
import_model_registry-set_model_status host db binding status models overwrite h none_given =
    let done : Database = (set_model_status db binding status).0 in
    import_model_registry-status host done models overwrite binding none_given
    ∙ set_model_status-status db binding status h
