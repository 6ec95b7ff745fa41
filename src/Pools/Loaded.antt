-- ===== src/Pools/Loaded.antt =====
-- nla-model-pools.mjs: what a file of pools is read as, and its comparison with an inventory.
use Prim.Native.String.{◌++◌ as text_append}
use next_level_agent.Base.{
  ℕ, String, Bool, true, false, ◌&&◌, not, Option, none, some, List, [], ◌∷◌, ◌++◌, Dict, lookup,
  insert, if◌then◌else◌, length,
}
use next_level_agent.Base.Result.{Result, ok, err, ◌>>=◌, ◌>>◌}
use next_level_agent.Base.Texts.{includes}
use next_level_agent.Pools.Binding.{Fault, absent, parse_model_binding}
use next_level_agent.Pools.File.{
  RawFacts, RawModels, automatic, listed, RawPool, is_word_of, validate_model_pools,
}

unfoldable pub normalized_models : RawPool → RawModels → RawPool
unfolding is_word_of
normalized_models pool automatic =
    if is_word_of ("select" ∷ []) pool.selection_mode
    then record pool { selection_mode = some "auto"; models = listed [] }
    else pool
normalized_models pool models = pool

-- `cost_weight`, which is dropped, is no field of the model.
unfoldable pub normalize_auto_pool : RawPool → RawPool
unfolding normalized_models
normalize_auto_pool pool = normalized_models pool pool.models

facts_of : Option (Dict RawFacts) → Option (Dict RawFacts) → Dict RawFacts
facts_of (some f) m = f
facts_of none (some m) = m
facts_of none none = []

-- Object.assign(shared, facts)
assign : Dict RawFacts → Dict RawFacts → Dict RawFacts
unfolding insert
assign shared [] = shared
assign shared ((binding, facts) ∷ rest) = assign (insert binding facts shared) rest

unfoldable pub shared_facts : Dict RawFacts → Dict RawPool → Dict RawFacts
unfolding facts_of assign
shared_facts shared [] = shared
shared_facts shared ((role, pool) ∷ rest) =
    shared_facts (assign shared (facts_of pool.model_facts pool.model_metadata)) rest

unfoldable pub facts_among : Dict RawFacts → List String → Dict RawFacts
unfolding lookup
facts_among shared [] = []
facts_among shared (b ∷ bs) = elim (lookup b shared) [
  | none ↦ facts_among shared bs
  | some f ↦ (b, f) ∷ facts_among shared bs
]

unfoldable pub with_facts : Dict RawFacts → RawModels → RawPool → RawPool
unfolding facts_among
with_facts [] models pool = pool
with_facts (f ∷ fs) (listed bindings) pool = record pool {
  model_facts = some (facts_among (f ∷ fs) bindings);
}
with_facts (f ∷ fs) models pool = pool

unfoldable pub read_roles : Dict RawFacts → Dict RawPool → Dict RawPool
unfolding with_facts normalize_auto_pool
read_roles shared [] = []
read_roles shared ((role, pool) ∷ rest) =
    (role, with_facts shared pool.models (normalize_auto_pool pool)) ∷ read_roles shared rest

-- `readPoolFile`, of a file that was parsed.
unfoldable pub read_pools : (String → Bool) → Dict RawPool → Result Fault (Dict RawPool)
unfolding read_roles shared_facts
read_pools is_role_id roles =
    validate_model_pools is_role_id roles >> ok (read_roles (shared_facts [] roles) roles)

-- pool.model_facts?.[binding]?.status === 'disabled'
unfoldable pub is_disabled : Option (Dict RawFacts) → String → Bool
unfolding lookup is_word_of
is_disabled none binding = false
is_disabled (some facts) binding = elim (lookup binding facts) [
  | none ↦ false
  | some f ↦ is_word_of ("disabled" ∷ []) f.status
]

is_on : Option Bool → Bool
is_on none = false
is_on (some b) = b

-- The models that a pool cannot do without: none, for a pool that is off or automatic.
unfoldable pub needed : RawPool → List String
unfolding is_on is_word_of
needed pool = elim pool.models [
  | listed bindings ↦
      if is_on pool.enabled && not (is_word_of ("auto" ∷ []) pool.selection_mode)
      then bindings
      else []
  | _ ↦ []
]

unfoldable pub missing_among :
    String → Option (Dict RawFacts) → List String → List String → List String
unfolding is_disabled
missing_among role facts available [] = []
missing_among role facts available (b ∷ bs) =
    let rest = missing_among role facts available bs in
    if not (is_disabled facts b) && not (includes available b)
    then text_append role (text_append ":" b) ∷ rest
    else rest

unfoldable pub unavailable : List String → Dict RawPool → List String
unfolding missing_among needed
unavailable available [] = []
unavailable available ((role, pool) ∷ rest) =
    missing_among role pool.model_facts available (needed pool) ++ unavailable available rest

unfoldable pub parse_all : List String → Result Fault (List String)
unfolding parse_model_binding
parse_all [] = ok []
parse_all (b ∷ bs) = parse_model_binding b >>= λ q. parse_all bs >>= λ qs. ok (q.binding ∷ qs)

unfoldable pub none_missing : List String → Result Fault (Unit {0})
none_missing [] = ok tt
none_missing (b ∷ bs) = err (absent (b ∷ bs))

-- The number of roles, and whether the inventory was compared.
unfoldable pub preflight_model_pools :
    (String → Bool) → Dict RawPool → Option (List String) → Result Fault (ℕ × Bool)
unfolding parse_all unavailable none_missing
preflight_model_pools is_role_id roles none =
    validate_model_pools is_role_id roles >> ok (length roles, false)
preflight_model_pools is_role_id roles (some inventory) =
    validate_model_pools is_role_id roles >> parse_all inventory >>= λ available.
    none_missing (unavailable available roles) >> ok (length roles, true)
