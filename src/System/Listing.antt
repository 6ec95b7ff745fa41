-- ===== src/System/Listing.antt =====
-- nla-system-database.mjs: the lists of the registry, and the statuses that the operator sets.
use next_level_agent.System.Database.{exists_in}
use next_level_agent.Base.{
  if◌then◌else◌, String, Bool, not, Option, none, some, List, map, select, ◌==◌, Dict, lookup,
}
use next_level_agent.Base.Result.{ok, ◌>>=◌, ◌>>◌, throw_if}
use next_level_agent.Base.Order.{sort_by}
use next_level_agent.Base.Texts.{includes}
use next_level_agent.Base.TextOrder.{text_le}
use next_level_agent.Evaluations.Scores.{Scores}
use next_level_agent.System.Names.{failed, valid_binding, valid_provider_id, provider_of}
use next_level_agent.System.Tables.{Database, Facts, ModelRow}
use next_level_agent.System.Database.{Outcome, reading, writing, checked, update}
use next_level_agent.System.Registry.{statuses, notes_of}

-- All, by id, or the one that is asked for; an empty text asks for all.
by_id : String × String → String × String → Bool
by_id a b = text_le a.0 b.0

unfoldable list_provider_registry : Database → Option String → Outcome (Dict String)
unfolding reading valid_provider_id sort_by by_id
list_provider_registry db none = reading db λ m. ok (sort_by by_id m.providers)
list_provider_registry db (some provider) = reading db λ m.
    if provider == ""
    then ok (sort_by by_id m.providers)
    else (valid_provider_id provider >>= λ valid.
        ok (select (λ (row : String × String). row.0 == valid) m.providers))

unfoldable pub with_provider_status : String → String → Database → Database
unfolding update
with_provider_status provider status db = record db {
  providers = update provider (λ old. status) db.providers;
}

unfoldable pub set_provider_status : Database → String → String → Outcome (String × String)
unfolding valid_provider_id includes checked writing exists_in with_provider_status
set_provider_status db provider status = checked db (valid_provider_id provider) λ valid.
    checked db
      (throw_if (not (includes statuses status))
        (failed "Provider status must be enabled or disabled"))
      λ known. writing db λ m.
        throw_if (not (exists_in provider m.providers)) (failed "Provider is not registered")
        >> ok (with_provider_status provider status m, (provider, status))

unfoldable pub with_model_status : String → String → Database → Database
unfolding update
with_model_status binding status db = record db {
  registry =
      update binding (λ row. record row { facts = record row.facts { status = some status } })
        db.registry;
}

unfoldable pub set_model_status : Database → String → String → Outcome (String × String)
unfolding valid_binding includes checked writing exists_in with_model_status
set_model_status db binding status = checked db (valid_binding binding) λ valid.
    checked db
      (throw_if (not (includes statuses status))
        (failed "Model status must be enabled or disabled"))
      λ known. writing db λ m.
        throw_if (not (exists_in binding m.registry)) (failed "Model binding is not registered")
        >> ok (with_model_status binding status m, (binding, status))

-- The status of the provider of a binding, where it is registered.
unfoldable pub provider_status : Dict String → String → Option String
unfolding provider_of lookup
provider_status providers binding = elim (provider_of binding) [
  | none ↦ none
  | some provider ↦ lookup provider providers
]

-- A model as it is listed.
pub record Listed : Type 0 where
  pub binding : String
  pub status : String
  pub provider_status : String
  pub facts : Facts
  pub source : String
  pub scores : Option Scores
  pub notes : Dict String

or_enabled : Option String → String
or_enabled none = "enabled"
or_enabled (some s) = s

listed_row : Database → String × ModelRow → Listed
unfolding or_enabled provider_status lookup sort_by by_id notes_of
listed_row db entry = record {
  binding = entry.0;
  status = or_enabled entry.1.facts.status;
  provider_status = or_enabled (provider_status db.providers entry.0);
  facts = entry.1.facts;
  source = entry.1.source;
  scores = lookup entry.0 db.evaluations;
  notes = sort_by by_id (notes_of entry.0 db.notes);
}

by_binding : String × ModelRow → String × ModelRow → Bool
by_binding a b = text_le a.0 b.0

unfoldable list_model_registry : Database → Option String → Outcome (List Listed)
unfolding reading valid_binding sort_by by_binding listed_row
list_model_registry db none =
    reading db λ m. ok (map (listed_row m) (sort_by by_binding m.registry))
list_model_registry db (some binding) = reading db λ m.
    if binding == ""
    then ok (map (listed_row m) (sort_by by_binding m.registry))
    else (valid_binding binding >>= λ valid.
        ok (map (listed_row m) (select (λ (row : String × ModelRow). row.0 == valid) m.registry)))
