-- ===== src/Pools/File.antt =====
-- nla-model-pools.mjs: the checks of a file of pools, and the pools that are made of it. Values are those
-- that pass the type tests of the source; scores and costs are in hundredths.
use next_level_agent.Base.{
  ℕ, String, Bool, true, false, ◌&&◌, ◌||◌, not, Option, none, some, List, [], ◌∷◌, all, any, eqb,
  ltb, length, Dict, ◌==◌,
}
use next_level_agent.Base.Result.{Result, ok, err, ◌>>=◌, ◌>>◌, throw_if}
use next_level_agent.Base.Texts.{includes, unique}
use next_level_agent.Pools.Binding.{
  Fault, bad_role, bad_mode, bad_policy, boundary_mode, bad_providers, bad_minimum, bad_weights,
  auto_needs_agent, auto_has_facts, no_models, repeated_binding, unlisted_facts, bad_id, bad_status,
  bad_context, bad_window, bad_availability, is_binding_part, parse_model_binding,
}

-- A bound of a window: missing or empty, a date, or a text that is none.
pub data Edge : Type 0 where
  open_edge no_date : Edge
  date : ℕ → Edge

-- `word` is a text; `scheduled` an object, with its schedule and its windows.
pub data RawAvailability : Type 0 where
  unset : RawAvailability
  flag : Bool → RawAvailability
  word : String → RawAvailability
  scheduled : Option String → Option (List (Edge × Edge)) → RawAvailability

pub record RawFacts : Type 0 where
  pub id : Option String
  pub status : Option String
  pub context_window : Option ℕ
  pub input_cost : Option ℕ
  pub output_cost : Option ℕ
  pub availability : RawAvailability

-- `models`: the word auto, a list, or missing.
pub data RawModels : Type 0 where
  automatic unlisted : RawModels
  listed : List String → RawModels

pub record RawPool : Type 0 where
  pub enabled : Option Bool
  pub selection_mode : Option String
  pub selection_policy : Option String
  pub preferred_providers : Option (List String)
  pub minimum_score : Option ℕ
  pub selection_weights : Option (Dict ℕ)
  pub runtime : Option String
  pub models : RawModels
  pub model_facts : Option (Dict RawFacts)
  pub model_metadata : Option (Dict RawFacts)

dates_are_valid : Edge → Edge → Bool
dates_are_valid open_edge open_edge = false
dates_are_valid open_edge (date e) = true
dates_are_valid (date s) open_edge = true
dates_are_valid (date s) (date e) = not (ltb e s)
dates_are_valid no_date _ = false
dates_are_valid _ no_date = false

unfoldable pub is_word_of : List String → Option String → Bool
is_word_of words none = false
is_word_of words (some w) = includes words w

-- `undefined`, or one of the words
unfoldable pub fits : List String → Option String → Bool
fits words none = true
fits words (some w) = includes words w

unfoldable pub windows_are_valid :
    Option String → Option (List (Edge × Edge)) → Result Fault (Unit {0})
unfolding dates_are_valid is_word_of
windows_are_valid schedule none = throw_if (is_word_of ("windows" ∷ []) schedule) bad_window
windows_are_valid schedule (some []) = err bad_window
windows_are_valid schedule (some (w ∷ ws)) =
    throw_if (not (all (λ (v : Edge × Edge). dates_are_valid v.0 v.1) (w ∷ ws))) bad_window

unfoldable pub validate_availability : RawAvailability → Result Fault (Unit {0})
unfolding fits windows_are_valid
validate_availability unset = ok tt
validate_availability (flag b) = ok tt
validate_availability (word w) =
    throw_if (not (includes ("always" ∷ "available" ∷ "never" ∷ "unavailable" ∷ []) w))
      bad_availability
validate_availability (scheduled schedule windows) =
    throw_if (not (fits ("always" ∷ "windows" ∷ []) schedule)) bad_availability
    >> windows_are_valid schedule windows

same_id : Option String → String → Bool
same_id none binding = true
same_id (some id) binding = id == binding

is_zero_window : Option ℕ → Bool
is_zero_window none = false
is_zero_window (some n) = eqb n 0

unfoldable pub validate_facts : List String → Dict RawFacts → Result Fault (Unit {0})
unfolding same_id is_zero_window validate_availability fits
validate_facts seen [] = ok tt
validate_facts seen ((binding, facts) ∷ rest) =
    throw_if (not (includes seen binding)) unlisted_facts
    >> throw_if (not (same_id facts.id binding)) bad_id
    >> throw_if (not (fits ("enabled" ∷ "disabled" ∷ []) facts.status)) bad_status
    >> throw_if (is_zero_window facts.context_window) bad_context
    >> validate_availability facts.availability
    >> validate_facts seen rest

-- The bindings of a pool, each valid and none twice, after those that were seen.
unfoldable pub validate_bindings : List String → List String → Result Fault (Unit {0})
unfolding parse_model_binding
validate_bindings seen [] = ok tt
validate_bindings seen (b ∷ bs) = parse_model_binding b >>= λ parsed.
    throw_if (includes seen parsed.binding) repeated_binding
    >> validate_bindings (parsed.binding ∷ seen) bs

providers_are_bad : Option (List String) → Bool
providers_are_bad none = false
providers_are_bad (some []) = true
providers_are_bad (some (p ∷ ps)) =
    not (eqb (length (unique (p ∷ ps))) (length (p ∷ ps)))
    || any (λ q. not (is_binding_part q)) (p ∷ ps)

above_ten : Option ℕ → Bool
above_ten none = false
above_ten (some n) = ltb 1000 n

score_keys : List String
score_keys = "coding" ∷ "reasoning" ∷ "tool_use" ∷ "reliability" ∷ "latency" ∷ []

weights_are_bad : Option (Dict ℕ) → Bool
unfolding score_keys
weights_are_bad none = false
weights_are_bad (some []) = true
weights_are_bad (some (w ∷ ws)) =
    any (λ (v : String × ℕ). not (includes score_keys v.0) || ltb 1000 v.1) (w ∷ ws)

is_given {ℓ} : {A : Type ℓ} → Option A → Bool
is_given none = false
is_given (some a) = true

facts_of : Option (Dict RawFacts) → Option (Dict RawFacts) → Dict RawFacts
facts_of (some f) m = f
facts_of none (some m) = m
facts_of none none = []

unfoldable pub validate_models : String → RawPool → RawModels → Result Fault (Unit {0})
unfolding is_word_of is_given validate_bindings validate_facts facts_of
validate_models role pool automatic =
    throw_if
      (role == "nla"
        || not (is_word_of ("select" ∷ []) pool.selection_mode)
        || is_word_of ("utility" ∷ []) pool.runtime)
      auto_needs_agent
    >> throw_if (is_given pool.model_facts || is_given pool.model_metadata) auto_has_facts
validate_models role pool unlisted =
    throw_if
      (is_word_of ("auto" ∷ []) pool.selection_mode
        && (role == "nla" || is_word_of ("utility" ∷ []) pool.runtime))
      auto_needs_agent
    >> err no_models
validate_models role pool (listed models) =
    throw_if
      (is_word_of ("auto" ∷ []) pool.selection_mode
        && (role == "nla" || is_word_of ("utility" ∷ []) pool.runtime))
      auto_needs_agent
    >> throw_if (eqb (length models) 0 && not (is_word_of ("auto" ∷ []) pool.selection_mode))
        no_models
    >> validate_bindings [] models
    >> validate_facts models (facts_of pool.model_facts pool.model_metadata)

-- `is_role_id` is /^[a-z][a-z0-9_-]*$/.
unfoldable pub check_settings : (String → Bool) → String → RawPool → Result Fault (Unit {0})
unfolding fits is_word_of providers_are_bad above_ten weights_are_bad
check_settings is_role_id role pool =
    throw_if (not (is_role_id role)) bad_role
    >> throw_if (not (fits ("fallback" ∷ "select" ∷ "auto" ∷ []) pool.selection_mode)) bad_mode
    >> throw_if
        (not (fits ("quality" ∷ "balanced" ∷ "cost" ∷ "local" ∷ "free" ∷ []) pool.selection_policy))
        bad_policy
    >> throw_if
        (is_word_of ("local" ∷ "free" ∷ []) pool.selection_policy
          && not (is_word_of ("select" ∷ "auto" ∷ []) pool.selection_mode))
        boundary_mode
    >> throw_if (providers_are_bad pool.preferred_providers) bad_providers
    >> throw_if (above_ten pool.minimum_score) bad_minimum
    >> throw_if (weights_are_bad pool.selection_weights) bad_weights

unfoldable pub validate_pool : (String → Bool) → String → RawPool → Result Fault (Unit {0})
unfolding check_settings validate_models
validate_pool is_role_id role pool =
    check_settings is_role_id role pool >> validate_models role pool pool.models

unfoldable pub validate_model_pools : (String → Bool) → Dict RawPool → Result Fault (Unit {0})
unfolding validate_pool
validate_model_pools is_role_id [] = ok tt
validate_model_pools is_role_id ((role, pool) ∷ rest) =
    validate_pool is_role_id role pool >> validate_model_pools is_role_id rest
