-- ===== src/Pools/Examples.antt =====
-- A file of model pools at concrete inputs.
use next_level_agent.Base.{
  ◌≡◌, ◌⊎◌, refl, String, Bool, true, none, some, [], ◌∷◌, Dict, All, lookup, insert,
}
use next_level_agent.Base.Result.{ok, err}
use next_level_agent.Base.Texts.{includes, dedupe}
use next_level_agent.Pools.Binding.{
  absent, is_binding_part, split_slash, join_slash, parsed_parts, character_count,
  parse_model_binding,
}
use next_level_agent.Pools.File.{
  date, open_edge, scheduled, RawFacts, automatic, listed, RawPool, is_word_of, fits,
  windows_are_valid, validate_availability, validate_facts, validate_bindings, validate_models,
  check_settings, validate_pool, validate_model_pools,
}
use next_level_agent.Pools.Loaded.{
  normalized_models, normalize_auto_pool, shared_facts, facts_among, with_facts, read_roles,
  read_pools, is_disabled, needed, missing_among, unavailable, parse_all, none_missing,
  preflight_model_pools,
}
use next_level_agent.Pools.Inventory.{IsDisabled, preflight_model_pools-AreCovered}
use next_level_agent.Pools.Valid.{HasModels, read_pools-HasModels}

binding_is_parsed :
    parse_model_binding "local/org/model-1"
    ≡ ok record { provider_id = "local"; model_id = "org/model-1"; binding = "local/org/model-1" }
unfolding parse_model_binding character_count parsed_parts split_slash join_slash is_binding_part
binding_is_parsed = refl

abbrev facts : RawFacts
facts = record {
  id = none;
  status = some "disabled";
  context_window = some 8000;
  input_cost = none;
  output_cost = some 25;
  availability = scheduled (some "windows") (some ((date 1, open_edge) ∷ []));
}

abbrev automatic_pool : RawPool
automatic_pool = record {
  enabled = some true;
  selection_mode = some "select";
  selection_policy = some "local";
  preferred_providers = some ("local" ∷ []);
  minimum_score = some 750;
  selection_weights = some (("coding", 1000) ∷ []);
  runtime = none;
  models = automatic;
  model_facts = none;
  model_metadata = none;
}

abbrev fixed_pool : RawPool
fixed_pool = record {
  enabled = some true;
  selection_mode = none;
  selection_policy = none;
  preferred_providers = none;
  minimum_score = none;
  selection_weights = none;
  runtime = none;
  models = listed ("local/small" ∷ "cloud/large" ∷ []);
  model_facts = some (("cloud/large", facts) ∷ []);
  model_metadata = none;
}

abbrev roles : Dict RawPool
roles = ("implementer", automatic_pool) ∷ ("reviewer", fixed_pool) ∷ []

abbrev is_role_id : String → Bool
is_role_id role = includes ("implementer" ∷ "reviewer" ∷ []) role

abbrev pools : Dict RawPool
pools =
    ("implementer", record automatic_pool { selection_mode = some "auto"; models = listed [] })
    ∷ ("reviewer", fixed_pool)
    ∷ []

file_is_valid : validate_model_pools is_role_id roles ≡ ok tt
unfolding validate_model_pools validate_pool check_settings validate_models validate_bindings
    validate_facts validate_availability windows_are_valid fits is_word_of includes dedupe
    parse_model_binding character_count parsed_parts split_slash join_slash is_binding_part lookup
file_is_valid = refl

file_is_read : read_pools is_role_id roles ≡ ok pools
unfolding read_pools validate_model_pools validate_pool check_settings validate_models
    validate_bindings validate_facts validate_availability windows_are_valid fits is_word_of
    includes dedupe parse_model_binding character_count parsed_parts split_slash join_slash
    is_binding_part lookup insert read_roles shared_facts with_facts facts_among normalize_auto_pool
    normalized_models
file_is_read = refl

read_pools-HasModels_example : All (λ r. HasModels r.1) pools
read_pools-HasModels_example = read_pools-HasModels is_role_id roles file_is_read

-- The disabled model needs not be there.
passes_preflight : preflight_model_pools is_role_id roles (some ("local/small" ∷ [])) ≡ ok (2, true)
unfolding preflight_model_pools validate_model_pools validate_pool check_settings validate_models
    validate_bindings validate_facts validate_availability windows_are_valid fits is_word_of
    includes dedupe parse_model_binding character_count parsed_parts split_slash join_slash
    is_binding_part lookup parse_all unavailable needed missing_among is_disabled none_missing
passes_preflight = refl

reviewer_is_fixed : lookup "reviewer" roles ≡ some fixed_pool
unfolding lookup
reviewer_is_fixed = refl

preflight_model_pools-AreCovered_example :
    All
      (λ b.
        IsDisabled (some (("cloud/large", facts) ∷ [])) b
        ⊎ (includes ("local/small" ∷ []) b ≡ true))
      ("local/small" ∷ "cloud/large" ∷ [])
preflight_model_pools-AreCovered_example =
    preflight_model_pools-AreCovered is_role_id roles ("local/small" ∷ []) "reviewer"
      passes_preflight reviewer_is_fixed refl (λ e. cc) refl

misses_a_model :
    preflight_model_pools is_role_id roles (some ("cloud/large" ∷ []))
    ≡ err (absent ("reviewer:local/small" ∷ []))
unfolding preflight_model_pools validate_model_pools validate_pool check_settings validate_models
    validate_bindings validate_facts validate_availability windows_are_valid fits is_word_of
    includes dedupe parse_model_binding character_count parsed_parts split_slash join_slash
    is_binding_part lookup parse_all unavailable needed missing_among is_disabled none_missing
misses_a_model = refl
