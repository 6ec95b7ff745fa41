-- ===== src/System/Sync.antt =====
-- nla-system-database.mjs: what the pools add to the registry on the first run.
use next_level_agent.Base.{
  ℕ, String, Bool, true, false, not, ◌&&◌, Option, none, some, List, [], ◌∷◌, length, ◌==◌, Dict,
  lookup, insert, if◌then◌else◌,
}
use next_level_agent.Base.Result.{Result, ok, ◌>>=◌}
use next_level_agent.Base.Order.{◌or_else◌}
use next_level_agent.Pools.File.{RawAvailability, unset, RawFacts, RawPool, RawModels, listed}
use next_level_agent.System.Names.{SystemError, valid_binding}
use next_level_agent.System.Tables.{Database, Facts, ModelRow, no_facts}
use next_level_agent.System.Database.{Outcome, writing, checked}

facts_of : Option (Dict RawFacts) → String → Option RawFacts
unfolding lookup
facts_of none binding = none
facts_of (some facts) binding = lookup binding facts

-- { id: _id, ...facts }
without_id : Option RawFacts → Facts
without_id none = no_facts
without_id (some f) = record {
  status = f.status;
  context_window = f.context_window;
  input_cost = f.input_cost;
  output_cost = f.output_cost;
  availability = f.availability;
}

pool_facts : RawPool → String → Facts
unfolding facts_of without_id
pool_facts pool binding =
    without_id (facts_of pool.model_facts binding or_else facts_of pool.model_metadata binding)

given_availability : RawAvailability → RawAvailability → RawAvailability
given_availability unset previous = previous
given_availability new previous = new

-- { ...previous, ...facts }
overlaid : Facts → Facts → Facts
unfolding given_availability
overlaid previous f = record {
  status = f.status or_else previous.status;
  context_window = f.context_window or_else previous.context_window;
  input_cost = f.input_cost or_else previous.input_cost;
  output_cost = f.output_cost or_else previous.output_cost;
  availability = given_availability f.availability previous.availability;
}

or_no_facts : Option Facts → Facts
or_no_facts none = no_facts
or_no_facts (some f) = f

add_bindings : RawPool → List String → Dict Facts → Result SystemError (Dict Facts)
unfolding valid_binding overlaid pool_facts or_no_facts lookup insert
add_bindings pool [] records = ok records
add_bindings pool (b ∷ bs) records = valid_binding b >>= λ valid.
    add_bindings pool bs
      (insert b (overlaid (or_no_facts (lookup b records)) (pool_facts pool b)) records)

unfoldable pub bindings_of : RawModels → List String
bindings_of (listed bindings) = bindings
bindings_of _ = []

unfoldable pub configured_records : Dict RawPool → Dict Facts → Result SystemError (Dict Facts)
unfolding add_bindings bindings_of
configured_records [] records = ok records
configured_records ((role, pool) ∷ rest) records =
    add_bindings pool (bindings_of pool.models) records >>= configured_records rest

is_none {ℓ} : {A : Type ℓ} → Option A → Bool
is_none none = true
is_none (some a) = false

is_unset : RawAvailability → Bool
is_unset unset = true
is_unset _ = false

-- facts_json = '{}'
unfoldable pub is_empty : Facts → Bool
unfolding is_none is_unset
is_empty f =
    is_none f.status
    && is_none f.context_window
    && is_none f.input_cost
    && is_none f.output_cost
    && is_unset f.availability

-- INSERT … ON CONFLICT DO UPDATE … WHERE facts_json = '{}' AND source <> 'operator-import'
unfoldable seed_row : Facts → Option ModelRow → ModelRow
unfolding is_empty
seed_row facts none = record { facts = facts; source = "pool-config-seed" }
seed_row facts (some row) =
    if is_empty row.facts && not (row.source == "operator-import")
    then record { facts = facts; source = "pool-config-seed" }
    else row

unfoldable seed_all : Dict Facts → Dict ModelRow → Dict ModelRow
unfolding seed_row lookup insert
seed_all [] registry = registry
seed_all ((binding, facts) ∷ rest) registry =
    seed_all rest (insert binding (seed_row facts (lookup binding registry)) registry)

unfoldable pub synchronize_configured_model_registry : Database → Dict RawPool → Outcome ℕ
unfolding configured_records checked writing seed_all
synchronize_configured_model_registry db roles = checked db (configured_records roles []) λ records.
    writing db λ m. ok (record m { registry = seed_all records m.registry }, length records)
