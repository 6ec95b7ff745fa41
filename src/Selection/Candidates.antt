-- ===== src/Selection/Candidates.antt =====
-- nla-model-selection.mjs: `rankModelCandidates`, the candidates of a pool for one task.
use Prim.Native.String.{slice, len}
use text.Mathlib.Text.{find?}
use next_level_agent.Base.{
  ℕ, zero, suc, ◌+◌, ◌-◌, String, Bool, true, false, ◌&&◌, not, Option, none, some, List, [], ◌∷◌,
  map, length, select, all, Dict, lookup, leb, ltb, eqb, ◌==◌, if◌then◌else◌,
}
use next_level_agent.Base.Order.{◌or_else◌, sort_by}
use next_level_agent.Base.Result.{Result, ok, ◌>>=◌}
use next_level_agent.Base.Texts.{includes}
use next_level_agent.Health.Manager.{State, Label, available, is_cooling, is_quarantined, in_flight}
use next_level_agent.Selection.Policy.{
  Scores, Policy, local, free, Preferences, SelectionError, Input, role_weights, normalized_scores,
  weighted_score, static_cost, is_free, is_local_model_binding, selection_preferences,
}
use next_level_agent.Selection.Pool.{
  Facts, Pool, Mode, is_auto, selection_mode, facts_in, static_availability, status_enabled,
  provider_disabled, listed_models,
}
use next_level_agent.Selection.Rank.{Health, health_for, Candidate, is_none, rank_by_policy}

pub record Profile : Type 0 where
  pub policy : Option String
  pub minimum_score : Input
  pub weights : Option (Dict ℕ)
  pub context_window : Option ℕ

-- The scores of the evaluations, `evaluations.models[b]` before `evaluations[b]`.
pub record Evaluations : Type 0 where
  pub models : Dict (Dict ℕ)
  pub direct : Dict (Dict ℕ)

pub record Task : Type 0 where
  pub role : String
  pub pool : Pool
  pub evaluations : Evaluations
  pub health : Health
  pub endpoint : String
  pub attempted : List String
  pub now : ℕ
  pub profile : Profile

or_empty : Option (Dict ℕ) → Dict ℕ
or_empty none = []
or_empty (some d) = d

unfoldable pub evaluated_scores : Evaluations → String → Scores
unfolding or_empty lookup
evaluated_scores e binding =
    normalized_scores (or_empty (lookup binding e.models or_else lookup binding e.direct))

or_role : String → Option (Dict ℕ) → Scores
or_role role none = role_weights role
or_role role (some w) = normalized_scores w

-- taskProfile.weights || pool.selection_weights || baseWeights
unfoldable pub weights_for : Task → Scores
unfolding or_role
weights_for t = or_role t.role (t.profile.weights or_else t.pool.selection_weights)

label_text : Label → String
label_text available = "available"
label_text is_cooling = "cooling"
label_text is_quarantined = "quarantined"
label_text in_flight = "probe-in-flight"

-- A task that asks for no window, or for 0, is content with any.
unfoldable pub insufficient_context : Option ℕ → Option ℕ → Bool
insufficient_context none has = false
insufficient_context (some zero) has = false
insufficient_context (some (suc n)) none = true
insufficient_context (some (suc n)) (some w) = ltb w (suc n)

asks : Option String → String → Bool
asks none name = false
asks (some p) name = p == name

unfoldable pub wants_local : Policy → Option String → Bool
unfolding asks
wants_local local task = true
wants_local p task = asks task "local"

unfoldable pub wants_free : Policy → Option String → Bool
unfolding asks
wants_free free task = true
wants_free p task = asks task "free"

-- `if (b) reasons.push(reason)`
abbrev add_if : Bool → String → List String → List String
add_if b reason rest = if b then reason ∷ rest else rest

-- Why a model may not be taken.
unfoldable pub reasons_for : Task → Policy → String → Facts → State → List String
unfolding label_text wants_local wants_free insufficient_context
reasons_for t policy binding facts health = add_if (includes t.attempted binding) "attempted" (
    add_if (not health.eligible) (label_text health.label) (
      add_if (not (status_enabled facts.status)) "disabled" (
        add_if (is_auto (selection_mode t.pool) && provider_disabled facts.provider_status)
          "provider_disabled"
          (add_if (wants_local policy t.profile.policy && not (is_local_model_binding binding))
            "not_local"
            (add_if
              (wants_free policy t.profile.policy
                && not (is_free facts.input_cost facts.output_cost))
              "not_free"
              (add_if (not (static_availability facts.availability t.now)) "static_unavailable" (
                add_if (insufficient_context t.profile.context_window facts.context_window)
                  "insufficient_context" [])))))))

-- xs.indexOf(s)
unfoldable pub index_of : List String → String → Option ℕ
index_of [] s = none
index_of (x ∷ xs) s =
    if x == s then some 0 else (elim (index_of xs s) [ none ↦ none | some i ↦ some (suc i) ])

-- binding.slice(0, binding.indexOf('/')), where -1 drops the last character
prefix_at : String → Option ℕ → String
prefix_at binding none = slice binding 0 (len binding - 1)
prefix_at binding (some i) = slice binding 0 i

rank_of : Option ℕ → ℕ
rank_of none = 0
rank_of (some i) = i + 1

preference_of : ℕ → Option ℕ → ℕ
preference_of n none = 0
preference_of n (some i) = n - i

unfoldable pub candidate_at : Task → Policy → String → ℕ → Candidate
unfolding prefix_at rank_of preference_of
candidate_at t policy binding i =
    let facts = facts_in t.pool binding in
    let health = health_for t.health binding t.endpoint t.now in
    let scores = evaluated_scores t.evaluations binding in
    let preferred = t.pool.preferred_providers in
    record {
      binding = binding;
      index = i;
      facts = facts;
      health = health;
      scores = scores;
      preference_rank =
          if is_auto (selection_mode t.pool)
          then rank_of (index_of t.pool.auto_preferences binding)
          else 0;
      provider_preference =
          preference_of (length preferred)
            (index_of preferred (prefix_at binding (find? binding "/")));
      cost = static_cost facts.input_cost facts.output_cost;
      score = weighted_score scores (weights_for t);
      reasons = reasons_for t policy binding facts health;
    }

unfoldable pub candidates_from : Task → Policy → ℕ → List String → List Candidate
candidates_from t policy i [] = []
candidates_from t policy i (b ∷ bs) =
    candidate_at t policy b i ∷ candidates_from t policy (i + 1) bs

is_quarantined_label : Label → Bool
is_quarantined_label is_quarantined = true
is_quarantined_label l = false

-- The ends of cooldowns, without the missing and the 0.
unfoldable pub ends_of : List Candidate → List ℕ
ends_of [] = []
ends_of (c ∷ cs) = elim c.health.until [
  | none ↦ ends_of cs
  | some t ↦ if eqb t 0 then ends_of cs else t ∷ ends_of cs
]

first : List ℕ → Option ℕ
first [] = none
first (x ∷ xs) = some x

pub record Ranking : Type 0 where
  pub mode : Mode
  pub preferences : Preferences
  pub models : List String
  pub all_candidates : List Candidate
  pub candidates : List Candidate
  pub all_quarantined : Bool
  pub earliest_retry_at : Option ℕ

abbrev pub is_eligible_candidate : Candidate → Bool
is_eligible_candidate c = is_none c.reasons

unfoldable pub ranking_of : Task → Preferences → Ranking
unfolding is_quarantined_label first
ranking_of t p =
    let every = candidates_from t p.policy 0 (listed_models t.pool.models) in
    let ranked = rank_by_policy (select is_eligible_candidate every) p in
    record {
      mode = selection_mode t.pool;
      preferences = p;
      models = map (λ (c : Candidate). c.binding) ranked;
      all_candidates = every;
      candidates = ranked;
      all_quarantined =
          ltb 0 (length every)
          && all (λ (c : Candidate). is_quarantined_label c.health.label) every;
      earliest_retry_at = first (sort_by leb (ends_of every));
    }

unfoldable pub rank_model_candidates : Task → Result SelectionError Ranking
rank_model_candidates t =
    selection_preferences t.pool.selection_policy t.profile.policy t.pool.minimum_score
      t.profile.minimum_score
    >>= λ p. ok (ranking_of t p)
