-- ===== src/Selection/Refine.antt =====
-- nla-model-selection.mjs: the weights and the window of a caller; nla-task-assessor.mjs: `assessTask`, which
-- refines an assessment by what a model proposes.
use next_level_agent.Base.{
  ℕ, zero, suc, max, min, String, Bool, true, false, ◌&&◌, ◌||◌, not, Option, none, some, List, [],
  ◌∷◌, ◌++◌, Dict, lookup, insert, leb, eqb, ◌==◌, if◌then◌else◌,
}
use next_level_agent.Base.Order.{◌or_else◌}
use next_level_agent.Base.Result.{Result, ok, err, ◌>>=◌}
use next_level_agent.Base.Texts.{includes}
use next_level_agent.Selection.Policy.{
  Scores, score_keys, Input, missing, blank, number, unreadable, Preferences, SelectionError,
  bad_weights, bad_context_window, is_boundary, filled, selection_preferences,
}
use next_level_agent.Selection.Assess.{
  Patterns, Level, at_least_high, Assessment, deterministic_assessment,
}

-- The weights that a refinement proposes: nothing or '', no JSON, no object, or the entries of an
-- object, a number in hundredths or another value.
pub data WeightsInput : Type 0 where
  no_weights bad_json no_object : WeightsInput
  entries : List (String × Option ℕ) → WeightsInput

is_weight : Option ℕ → Bool
is_weight none = false
is_weight (some n) = leb n 1000

number_of : Option ℕ → ℕ
number_of none = 0
number_of (some n) = n

unfoldable pub read_weights : Dict ℕ → List (String × Option ℕ) → Result SelectionError (Dict ℕ)
unfolding is_weight number_of
read_weights seen [] = ok seen
read_weights seen ((key, weight) ∷ rest) =
    let next = read_weights (insert key (number_of weight) seen) rest in
    if not (includes score_keys key) || not (is_weight weight) then err bad_weights else next

unfoldable pub parse_selection_weights : WeightsInput → Result SelectionError (Option (Dict ℕ))
parse_selection_weights no_weights = ok none
parse_selection_weights bad_json = err bad_weights
parse_selection_weights no_object = err bad_weights
parse_selection_weights (entries []) = err bad_weights
parse_selection_weights (entries (e ∷ es)) = read_weights [] (e ∷ es) >>= λ d. ok (some d)

-- `number n` is the integer n here.
unfoldable pub parse_context_window : Input → Result SelectionError (Option ℕ)
parse_context_window missing = ok none
parse_context_window blank = ok none
parse_context_window unreadable = err bad_context_window
parse_context_window (number zero) = err bad_context_window
parse_context_window (number (suc n)) = ok (some (suc n))

-- result.latency || baseline.latency
abbrev or_baseline : ℕ → ℕ → ℕ
or_baseline zero b = b
or_baseline (suc n) b = suc n

abbrev proposed_at : Dict ℕ → String → ℕ
proposed_at d key = number_of (lookup key d)

unfoldable pub refine_weights : Scores → Option (Dict ℕ) → Level → Scores
unfolding number_of
refine_weights baseline none risk = baseline
refine_weights baseline (some d) risk =
    let result : Scores = record {
      coding = proposed_at d "coding";
      reasoning = proposed_at d "reasoning";
      tool_use = proposed_at d "tool_use";
      reliability = proposed_at d "reliability";
      latency = proposed_at d "latency";
    } in
    if at_least_high risk
    then record result {
      reliability = 1000;
      reasoning = max result.reasoning 900;
      latency = min (or_baseline result.latency baseline.latency) 500;
    }
    else result

pub record Refinement : Type 0 where
  pub selection_weights : WeightsInput
  pub context_window : Input
  pub selection_policy : Option String
  pub minimum_score : Input

pub data Source : Type 0 where
  hybrid deterministic deterministic_fallback : Source

pub record Assessed : Type 0 where
  pub assessment : Assessment
  pub minimum_score : Option ℕ
  pub source : Source

is_given : Option (Dict ℕ) → Bool
is_given none = false
is_given (some d) = true

is_window : Option ℕ → Bool
is_window none = false
is_window (some n) = true

unfoldable pub is_supplied : Input → Bool
is_supplied missing = false
is_supplied blank = false
is_supplied i = true

policy_supplied : Option String → Bool
policy_supplied none = false
policy_supplied (some s) = not (s == "")

-- Math.max(a || 0, b || 0) || null
abbrev larger_window : Option ℕ → Option ℕ → Option ℕ
larger_window a b = let n = max (number_of a) (number_of b) in if eqb n 0 then none else some n

unfoldable pub preferences_of : Bool → Refinement → Result SelectionError (Option Preferences)
preferences_of false r = ok none
preferences_of true r =
    selection_preferences none r.selection_policy missing r.minimum_score >>= λ p. ok (some p)

minimum_of : Bool → Option Preferences → Option ℕ
minimum_of true (some p) = some p.minimum_score
minimum_of b p = none

-- Local and free stay, even for high-risk work.
unfoldable pub refined_policy : Level → Option String → Option String → Option String
unfolding filled is_boundary
refined_policy risk asked baseline =
    let policy = filled asked or_else baseline in
    if at_least_high risk && not (is_boundary policy) then some "quality" else policy

unfoldable pub refined :
    Assessment → Refinement → Option (Dict ℕ) → Option ℕ → Bool → Option Preferences → Assessed
unfolding minimum_of number_of
refined b r weights window has preferences = record {
  assessment = record b {
    weights = refine_weights b.weights weights b.risk;
    context_window = larger_window b.context_window window;
    policy = refined_policy b.risk r.selection_policy b.policy;
  };
  minimum_score = minimum_of (is_supplied r.minimum_score) preferences;
  source = if has then hybrid else deterministic;
}

unfoldable pub has_refinement : Refinement → Option (Dict ℕ) → Option ℕ → Bool
unfolding is_given is_window policy_supplied is_supplied
has_refinement r weights window =
    is_given weights
    || is_window window
    || policy_supplied r.selection_policy
    || is_supplied r.minimum_score

unfoldable pub refine : Assessment → Refinement → Result SelectionError Assessed
refine b r = parse_selection_weights r.selection_weights >>= λ weights.
    parse_context_window r.context_window >>= λ window.
    preferences_of (has_refinement r weights window) r >>= λ preferences.
    ok (refined b r weights window (has_refinement r weights window) preferences)

unfoldable pub assessed : Assessment → Refinement → Result SelectionError Assessed → Assessed
assessed b r (ok a) = a
assessed b r (err e) = record {
  assessment = record b {
    policy = if is_boundary r.selection_policy then r.selection_policy else b.policy;
    reasons = b.reasons ++ ("invalid model refinement ignored" ∷ []);
  };
  minimum_score = none;
  source = deterministic_fallback;
}

unfoldable pub assess_task : Patterns → String → String → String → Refinement → Assessed
assess_task p role description prompt r =
    let b = deterministic_assessment p role description prompt in assessed b r (refine b r)
