-- ===== src/Selection/Examples.antt =====
-- Model selection and task assessment at concrete inputs.
use next_level_agent.Base.{
  ℕ, ◌≡◌, ◌⊎◌, inl, inr, false, refl, String, true, false, none, some, List, [], ◌∷◌, ◌++◌, All,
  arith, lookup,
}
use next_level_agent.Base.Result.{ok}
use next_level_agent.Base.Order.{sort_by}
use next_level_agent.Base.Texts.{includes, Within}
use next_level_agent.Selection.Policy.{
  balanced, plus, missing, blank, number, selection_policy, selection_preferences, parse_policy,
  is_boundary, filled, is_local_model_binding,
}
use next_level_agent.Selection.Pool.{
  Facts, Pool, Registered, listed, auto, no_facts, selection_mode, listed_models, is_eligible,
  auto_models, auto_pool, preferred_among, matches_policy_boundary, facts_in, static_availability,
  status_enabled, provider_disabled, materialize_in, materialize_auto_pool,
}
use next_level_agent.Selection.Rank.{Candidate, no_health, health_for}
use next_level_agent.Selection.Candidates.{
  Task, Ranking, wants_local, wants_free, insufficient_context, ranking_of, rank_model_candidates,
}
use next_level_agent.Selection.Boundary.{
  IsAllowed, other_text, IsInside, rank_model_candidates-IsAllowed,
}
use next_level_agent.Selection.Complete.{rank_model_candidates_complete}
use next_level_agent.Selection.Auto.{IsUsable, HasRecord, materialize-models, materialize_complete}
use next_level_agent.Selection.Assess.{Patterns, at_least_high, deterministic_assessment}
use next_level_agent.Selection.Refine.{Refinement, entries, assess_task}
use next_level_agent.Selection.Floors.{IsGuarded, assess_task-IsGuarded}

abbrev priced : ℕ → Facts
priced n = record no_facts { input_cost = plus n; output_cost = plus n }

abbrev some_pool : Pool
some_pool = record {
  selection_mode = some "select";
  models = listed ("openai/large" ∷ "ollama/small" ∷ "openai/tried" ∷ []);
  selection_policy = none;
  minimum_score = missing;
  selection_weights = none;
  model_facts = ("openai/large", priced 5) ∷ ("ollama/small", priced 0) ∷ [];
  model_metadata = [];
  preferred_providers = "openai" ∷ [];
  auto_preferences = [];
}

abbrev some_task : Task
some_task = record {
  role = "implementer";
  pool = some_pool;
  evaluations = record {
    models =
        ("openai/large", ("coding", 800) ∷ ("reliability", 900) ∷ [])
        ∷ ("ollama/small", ("coding", 850) ∷ ("reliability", 800) ∷ [])
        ∷ [];
    direct = [];
  };
  health = no_health;
  endpoint = "";
  attempted = "openai/tried" ∷ [];
  now = 10;
  profile = record {
    policy = some "balanced";
    minimum_score = missing;
    weights = none;
    context_window = none;
  };
}

abbrev some_ranking : Ranking
some_ranking = ranking_of some_task (record { policy = balanced; minimum_score = 750 })

ranked : rank_model_candidates some_task ≡ ok some_ranking
unfolding rank_model_candidates selection_preferences selection_policy parse_policy is_boundary
    filled
ranked = refl

rank_model_candidates-IsAllowed_example : All (IsInside some_task balanced) some_ranking.models
unfolding ranking_of
rank_model_candidates-IsAllowed_example = rank_model_candidates-IsAllowed some_task ranked

large_is_listed : includes (listed_models some_pool.models) "openai/large" ≡ true
unfolding includes
large_is_listed = refl

large-IsAllowed : IsAllowed some_task balanced "openai/large"
unfolding includes health_for facts_in selection_mode lookup status_enabled wants_local wants_free
    static_availability insufficient_context
large-IsAllowed = record {
  not_attempted = refl;
  healthy = refl;
  enabled = refl;
  provider_on = refl;
  local_only = λ w. cc;
  free_only = λ w. cc;
  on_schedule = refl;
  fits = refl;
}

rank_model_candidates_complete_example : includes some_ranking.models "openai/large" ≡ true
unfolding ranking_of
rank_model_candidates_complete_example =
    rank_model_candidates_complete some_task "openai/large" ranked (λ e. ground arith)
      large_is_listed large-IsAllowed

abbrev some_candidates : List Candidate
some_candidates = some_ranking.all_candidates

abbrev automatic : Pool
automatic = record some_pool { selection_mode = some "auto"; selection_policy = some "local" }

abbrev registered : String → Registered
registered b = record {
  binding = b;
  status = some "enabled";
  provider_status = none;
  facts = priced 0;
}

abbrev registry : List Registered
registry =
    registered "ollama/new"
    ∷ registered "openai/large"
    ∷ registered "ollama/small"
    ∷ registered "ollama/gone"
    ∷ []

abbrev inventory : List String
inventory = "openai/large" ∷ "ollama/small" ∷ "ollama/new" ∷ []

abbrev materialized : Pool
materialized = auto_pool automatic registry inventory

is_automatic : selection_mode automatic ≡ auto
unfolding selection_mode
is_automatic = refl

is_materialized : materialize_auto_pool automatic registry (some inventory) ≡ ok materialized
unfolding materialize_in selection_mode
is_materialized = refl

-- The preferred model stands first, and the other local one in the inventory behind it.
materialized_models : listed_models materialized.models ≡ "ollama/small" ∷ "ollama/new" ∷ []
unfolding auto_pool auto_models preferred_among is_eligible matches_policy_boundary includes sort_by
    is_local_model_binding provider_disabled
materialized_models = refl

materialize-models_example :
    All (HasRecord inventory (some "local") registry) (listed_models materialized.models)
    × ((rest : List String) × (listed_models materialized.models
          ≡ materialized.auto_preferences ++ rest))
    × Within materialized.auto_preferences ("openai/large" ∷ "ollama/small" ∷ "openai/tried" ∷ [])
materialize-models_example =
    materialize-models automatic registry inventory is_automatic is_materialized

new-IsUsable : IsUsable inventory (some "local") (registered "ollama/new")
unfolding includes is_local_model_binding
new-IsUsable = record {
  enabled = refl;
  provider_on = λ e. cc;
  available = refl;
  boundary = (inr refl, inl (other_text "local" "free" refl));
}

materialize_complete_example :
    (includes (listed_models materialized.models) "ollama/new" ≡ true)
    × ((includes (listed_models automatic.models) "ollama/new" ≡ false)
        ⊎ (includes materialized.auto_preferences "ollama/new" ≡ true))
materialize_complete_example =
    materialize_complete automatic registry inventory (registered "ollama/new") is_automatic
      is_materialized (inl refl) new-IsUsable

-- Every text is of high risk, and nothing else is found in it.
abbrev some_patterns : Patterns
some_patterns = record {
  critical = λ s. false;
  high = λ s. true;
  low = λ s. false;
  complex = λ s. false;
  tools = λ s. false;
  latency = λ s. true;
  large_context = λ s. false;
  size = λ s. 40;
  newlines = λ s. 1;
  requirements = λ s. 0;
}

abbrev careless : Refinement
careless = record {
  selection_weights = entries (("latency", some 1000) ∷ ("reliability", some 100) ∷ []);
  context_window = blank;
  selection_policy = some "cost";
  minimum_score = number 100;
}

assess_task-IsGuarded_example :
    let b = deterministic_assessment some_patterns "scout" "schema migration" "do it" in
    let a = (assess_task some_patterns "scout" "schema migration" "do it" careless).assessment in
    (a.risk ≡ b.risk)
    × (a.complexity ≡ b.complexity)
    × (at_least_high b.risk ≡ true → IsGuarded (some "cost") a)
assess_task-IsGuarded_example =
    assess_task-IsGuarded some_patterns "scout" "schema migration" "do it" careless
