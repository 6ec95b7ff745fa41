-- ===== src/System/Samples.antt =====
-- Concrete runs on the registry and on the accounting of the system database.
use next_level_agent.Base.{
  true, false, none, some, List, [], ◌∷◌, ◌≡◌, refl, Dict, lookup, length, select,
}
use next_level_agent.Base.Result.{ok}
use next_level_agent.Base.Texts.{includes}
use next_level_agent.Pools.File.{RawPool}
use next_level_agent.Pools.Binding.{is_binding_part, character_count, split_slash}
use next_level_agent.System.Names.{provider_of}
use next_level_agent.System.Tables.{Database, ModelRow, Counts, UsageRow, no_facts}
use next_level_agent.System.Examples.{host, empty_database, one_model}
use next_level_agent.System.Registry.{ImportRecord, import_model_registry}
use next_level_agent.System.Listing.{set_provider_status, set_model_status}
use next_level_agent.System.Runtime.{
  Provider, synchronize_runtime_model_facts, PooledFacts, pool_with_system_facts,
}
use next_level_agent.System.Filled.{Extends, synchronize_runtime_model_facts-KeepsRow}
use next_level_agent.System.Statuses.{
  status_in, gives_status, import_model_registry-set_model_status,
}
use next_level_agent.System.Disabled.{IsMarked, pool_with_system_facts-IsMarked}
use next_level_agent.System.Usage.{
  UsageEvent, Filters, Group, record_system_model_usage, usage_filters, matches,
  summarize_system_model_usage,
}
use next_level_agent.System.Accounts.{
  requests_of, group_sums, row_sums, summarize_system_model_usage_sums,
}
use next_level_agent.System.Repeats.{record_system_model_usage_again}

abbrev priced : ModelRow
priced = record { facts = record no_facts { input_cost = some 25 }; source = "operator-import" }

abbrev registered : Database
registered = record empty_database {
  registry = ("acme/one", priced) ∷ [];
  providers = ("acme", "enabled") ∷ [];
}

abbrev acme : Provider
acme = record {
  id = "acme";
  models =
      ("one", record { outputs = none; context = some 8192; input = some 90; output = some 95 })
      ∷ [];
}

abbrev scouts : Dict RawPool
scouts = ("scout", one_model) ∷ []

is_registered : lookup "acme/one" registered.registry ≡ some priced
unfolding lookup
is_registered = refl

synchronize_runtime_model_facts-KeepsRow_example :
    (after : ModelRow) × (lookup "acme/one"
        (synchronize_runtime_model_facts registered scouts (acme ∷ [])).0.registry
      ≡ some after)
    × Extends priced after
synchronize_runtime_model_facts-KeepsRow_example =
    synchronize_runtime_model_facts-KeepsRow registered scouts (acme ∷ []) "acme/one" priced
      is_registered

-- The hole is filled, and the price of the operator stays.
hole_is_filled :
    lookup "acme/one" (synchronize_runtime_model_facts registered scouts (acme ∷ [])).0.registry
    ≡ some record {
      facts = record no_facts {
        context_window = some 8192;
        input_cost = some 25;
        output_cost = some 95;
      };
      source = "operator-import";
    }
unfolding synchronize_runtime_model_facts is_binding_part includes lookup character_count
    split_slash
hole_is_filled = refl

one_is_disabled :
    (set_model_status registered "acme/one" "disabled").1 ≡ ok ("acme/one", "disabled")
unfolding set_model_status is_binding_part includes character_count
one_is_disabled = refl

abbrev new_price : Dict ImportRecord
new_price =
    (
      "acme/one",
      record { scores = none; facts = some record no_facts { input_cost = some 10 }; notes = [] },
    )
    ∷ []

no_status_is_given : gives_status "acme/one" new_price ≡ false
unfolding gives_status
no_status_is_given = refl

import_model_registry-set_model_status_example :
    status_in "acme/one"
      (import_model_registry host
        (set_model_status registered "acme/one" "disabled").0
        new_price
        false).0
    ≡ some "disabled"
import_model_registry-set_model_status_example =
    import_model_registry-set_model_status host registered "acme/one" "disabled" new_price false
      one_is_disabled no_status_is_given

acme_is_disabled : (set_provider_status registered "acme" "disabled").1 ≡ ok ("acme", "disabled")
unfolding set_provider_status includes
acme_is_disabled = refl

abbrev marked_facts : Dict PooledFacts
marked_facts = ("acme/one", record { facts = priced.facts; provider_disabled = true }) ∷ []

is_in_pool : includes ("acme/one" ∷ []) "acme/one" ≡ true
unfolding includes
is_in_pool = refl

is_of_acme : provider_of "acme/one" ≡ some "acme"
unfolding provider_of
is_of_acme = refl

facts_are_marked :
    (pool_with_system_facts (set_provider_status registered "acme" "disabled").0 one_model).1
    ≡ ok (some marked_facts)
unfolding pool_with_system_facts set_provider_status includes
facts_are_marked = refl

pool_with_system_facts-IsMarked_example : IsMarked "acme/one" marked_facts
pool_with_system_facts-IsMarked_example =
    pool_with_system_facts-IsMarked registered "acme" "acme/one" one_model acme_is_disabled refl
      is_in_pool is_of_acme facts_are_marked

abbrev call_event : UsageEvent
call_event = record {
  message_id = "message_1";
  session_id = "session_1";
  root_session_id = "session_1";
  parent_session_id = none;
  role = some "scout";
  binding = "acme/one";
  finish_reason = none;
  input_tokens = some 120;
  output_tokens = some 30;
  reasoning_tokens = some 0;
  cache_read_tokens = some 0;
  cache_write_tokens = some 0;
  total_tokens = some 150;
  cost = some 2;
}

event_is_recorded :
    (record_system_model_usage host empty_database 10 call_event).1 ≡ ok (true, "message_1")
unfolding record_system_model_usage is_binding_part
event_is_recorded = refl

record_system_model_usage_again_example :
    let first = record_system_model_usage host empty_database 10 call_event in
    let second = record_system_model_usage host first.0 20 call_event in
    (second.1 ≡ ok (false, "message_1")) × (second.0.usage ≡ first.0.usage)
record_system_model_usage_again_example =
    record_system_model_usage_again host empty_database 10 20 call_event event_is_recorded

abbrev call_counts : Counts
call_counts = record {
  input = 120;
  output = 30;
  reasoning = 0;
  cache_read = 0;
  cache_write = 0;
  total = 150;
  cost = 2;
}

abbrev call_row : UsageRow
call_row = record {
  session_id = "session_1";
  parent_session_id = none;
  root_session_id = "session_1";
  role = some "scout";
  binding = "acme/one";
  counts = call_counts;
  finish_reason = none;
  observed_at = 10;
}

abbrev accounted : Database
accounted = record empty_database { usage = ("message_1", call_row) ∷ ("message_2", call_row) ∷ [] }

abbrev all_rows : Filters
all_rows = record { root_session_id = none; role = none; binding = none }

abbrev one_group : List Group
one_group =
    record {
      role = some "scout";
      binding = "acme/one";
      requests = 2;
      sums = record {
        input = 240;
        output = 60;
        reasoning = 0;
        cache_read = 0;
        cache_write = 0;
        total = 300;
        cost = 4;
      };
    }
    ∷ []

rows_are_summed : (summarize_system_model_usage host accounted all_rows).1 ≡ ok one_group
unfolding summarize_system_model_usage
rows_are_summed = refl

summarize_system_model_usage_sums_example :
    (filters : Filters) × (usage_filters host all_rows ≡ ok filters)
    × (requests_of one_group ≡ length (select (matches filters) accounted.usage))
    × (group_sums one_group ≡ row_sums (select (matches filters) accounted.usage))
summarize_system_model_usage_sums_example =
    summarize_system_model_usage_sums host accounted all_rows rows_are_summed
