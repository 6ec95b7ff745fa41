-- ===== src/System/Runtime.antt =====
-- nla-system-database.mjs: the facts that the providers give at run time, and the facts of a pool.
use Prim.Native.String.{◌++◌ as text_append}
use next_level_agent.Base.{
  ℕ, ◌+◌, String, Bool, true, false, not, ◌&&◌, ◌||◌, Option, none, some, List, [], ◌∷◌, ◌++◌, eqb,
  ltb, ◌==◌, Dict, lookup, insert, if◌then◌else◌,
}
use next_level_agent.Base.Result.{ok, err}
use next_level_agent.Base.Order.{◌or_else◌}
use next_level_agent.Base.Texts.{includes}
use next_level_agent.Pools.File.{RawPool, RawModels, automatic, listed, is_word_of}
use next_level_agent.System.Names.{valid_binding}
use next_level_agent.System.Tables.{Database, Facts, ModelRow, no_facts}
use next_level_agent.System.Database.{Outcome, transaction, reading, insert_or_ignore, update}
use next_level_agent.System.Registry.{facts_in}
use next_level_agent.System.Listing.{provider_status}
use next_level_agent.System.Sync.{bindings_of}

-- What a provider says of a model: its kinds of output where they are a list, a context that is a safe
-- integer, and costs that are numbers from 0.
pub record RuntimeModel : Type 0 where
  pub outputs : Option (List String)
  pub context : Option ℕ
  pub input : Option ℕ
  pub output : Option ℕ

pub record Provider : Type 0 where
  pub id : String
  pub models : Dict RuntimeModel

is_auto : RawModels → Bool
is_auto automatic = true
is_auto _ = false

has_auto : Dict RawPool → Bool
unfolding is_auto is_word_of
has_auto [] = false
has_auto ((role, pool) ∷ rest) =
    is_auto pool.models || is_word_of ("auto" ∷ []) pool.selection_mode || has_auto rest

-- The bindings of the pools of the utility runtime, or of the others.
listed_by : Bool → Dict RawPool → List String
unfolding is_word_of bindings_of
listed_by utility [] = []
listed_by utility ((role, pool) ∷ rest) =
    let others = listed_by utility rest in
    let is_utility = is_word_of ("utility" ∷ []) pool.runtime in
    if (if utility then is_utility else not is_utility)
    then bindings_of pool.models ++ others
    else others

is_valid : String → Bool
unfolding valid_binding
is_valid binding = elim (valid_binding binding) [ ok b ↦ true | err e ↦ false ]

gives_text : Option (List String) → Bool
unfolding includes
gives_text none = true
gives_text (some kinds) = includes kinds "text"

unfoldable is_candidate : Dict RawPool → String → RuntimeModel → Bool
unfolding is_valid has_auto listed_by includes gives_text
is_candidate roles binding model =
    is_valid binding
    && (has_auto roles || includes (listed_by false roles) binding)
    && not
        (includes (listed_by true roles) binding && not (includes (listed_by false roles) binding))
    && gives_text model.outputs

positive : Option ℕ → Option ℕ
positive none = none
positive (some n) = if ltb 0 n then some n else none

unfoldable discovered_facts : RuntimeModel → Facts
unfolding positive
discovered_facts model = record no_facts {
  context_window = positive model.context;
  input_cost = model.input;
  output_cost = model.output;
}

unfoldable candidates_of : Dict RawPool → String → Dict RuntimeModel → Dict Facts → Dict Facts
unfolding is_candidate discovered_facts insert
candidates_of roles provider [] found = found
candidates_of roles provider ((model_id, model) ∷ rest) found =
    let binding = text_append provider (text_append "/" model_id) in
    candidates_of roles provider rest (
      if is_candidate roles binding model
      then insert binding (discovered_facts model) found
      else found)

unfoldable pub all_candidates : Dict RawPool → List Provider → Dict Facts → Dict Facts
unfolding candidates_of
all_candidates roles [] found = found
all_candidates roles (p ∷ ps) found =
    all_candidates roles ps (if p.id == "" then found else candidates_of roles p.id p.models found)

-- { ...facts, ...missing }: what is there stays.
unfoldable pub filled : Facts → Facts → Facts
filled facts discovered = record facts {
  context_window = facts.context_window or_else discovered.context_window;
  input_cost = facts.input_cost or_else discovered.input_cost;
  output_cost = facts.output_cost or_else discovered.output_cost;
}

added : Option ℕ → Option ℕ → ℕ
added none (some n) = 1
added held discovered = 0

missing_count : Facts → Facts → ℕ
unfolding added
missing_count facts d =
    added facts.context_window d.context_window
    + added facts.input_cost d.input_cost
    + added facts.output_cost d.output_cost

unfoldable pub with_discovered : String → Facts → Dict ModelRow → Dict ModelRow
unfolding insert_or_ignore update filled
with_discovered binding discovered registry =
    update binding (λ row. record row { facts = filled row.facts discovered })
      (insert_or_ignore binding record { facts = discovered; source = "runtime-discovery" }
        registry)

-- The registry, how many models were updated, and how many fields were added.
unfoldable pub discover_all : Dict Facts → Dict ModelRow → Dict ModelRow × (ℕ × ℕ)
unfolding with_discovered missing_count facts_in insert_or_ignore
discover_all [] registry = (registry, (0, 0))
discover_all ((binding, discovered) ∷ rest) registry =
    let (after, (models, fields)) =
      discover_all rest (with_discovered binding discovered registry) in
    let held = facts_in binding (
      insert_or_ignore binding record { facts = discovered; source = "runtime-discovery" }
        registry) in
    let missing = missing_count held discovered in
    (after, if eqb missing 0 then (models, fields) else (models + 1, fields + missing))

unfoldable pub with_discoveries : Dict RawPool → List Provider → Database → Database × (ℕ × ℕ)
unfolding all_candidates discover_all
with_discoveries roles providers db =
    let (registry, counts) = discover_all (all_candidates roles providers []) db.registry in
    (record db { registry = registry }, counts)

unfoldable pub synchronize_runtime_model_facts :
    Database → Dict RawPool → List Provider → Outcome (ℕ × ℕ)
unfolding transaction with_discoveries
synchronize_runtime_model_facts db roles providers =
    transaction db λ m. ok (with_discoveries roles providers m)

-- The facts of a model of a pool, with the mark of a disabled provider.
pub record PooledFacts : Type 0 where
  pub facts : Facts
  pub provider_disabled : Bool

unfoldable pub is_disabled : Option String → Bool
is_disabled none = false
is_disabled (some s) = s == "disabled"

-- A model that is not registered has facts only where its provider is disabled.
unfoldable pub pooled : Option ModelRow → Bool → Option PooledFacts
pooled none false = none
pooled none true = some record { facts = no_facts; provider_disabled = true }
pooled (some row) disabled = some record { facts = row.facts; provider_disabled = disabled }

unfoldable pub with_entry : String → Option PooledFacts → Dict PooledFacts → Dict PooledFacts
with_entry binding none facts = facts
with_entry binding (some held) facts = (binding, held) ∷ facts

-- No binding stands twice in a pool that was validated.
unfoldable pub facts_for : Database → List String → Dict PooledFacts
unfolding is_disabled provider_status lookup pooled with_entry
facts_for db [] = []
facts_for db (b ∷ bs) =
    with_entry b (pooled (lookup b db.registry) (is_disabled (provider_status db.providers b)))
      (facts_for db bs)

-- none where the pool has no list of models, which is then left as it is
unfoldable pub facts_of_models : Database → RawModels → Outcome (Option (Dict PooledFacts))
unfolding reading facts_for
facts_of_models db (listed bindings) = reading db λ m. ok (some (facts_for m bindings))
facts_of_models db models = (db, ok none)

unfoldable pub pool_with_system_facts : Database → RawPool → Outcome (Option (Dict PooledFacts))
unfolding facts_of_models
pool_with_system_facts db pool = facts_of_models db pool.models
