-- ===== src/Selection/Policy.antt =====
-- nla-model-selection.mjs: role weights, scores, policies and preferences.
-- Scores and weights are in hundredths (7.5 is 750); a value that is no finite number, or is
-- negative, is left out of a dictionary, as it counts like a missing one.
use text.Mathlib.Text.{find?}
use Prim.Native.String.{slice}
use next_level_agent.Base.{
  ℕ, ◌+◌, ◌*◌, String, Bool, false, ◌&&◌, ◌||◌, Option, none, some, List, [], ◌∷◌, Dict, lookup,
  leb, ltb, eqb, ◌==◌, if◌then◌else◌,
}
use next_level_agent.Base.Order.{◌or_else◌}
use next_level_agent.Base.Result.{Result, ok, err, ◌>>=◌}

abbrev pub score_keys : List String
score_keys = "coding" ∷ "reasoning" ∷ "tool_use" ∷ "reliability" ∷ "latency" ∷ []

pub record Scores : Type 0 where
  pub coding : ℕ
  pub reasoning : ℕ
  pub tool_use : ℕ
  pub reliability : ℕ
  pub latency : ℕ

abbrev weights_of : ℕ → ℕ → ℕ → ℕ → ℕ → Scores
weights_of c r t f l = record {
  coding = 100 * c;
  reasoning = 100 * r;
  tool_use = 100 * t;
  reliability = 100 * f;
  latency = 100 * l;
}

abbrev pub implementer_weights : Scores
implementer_weights = weights_of 10 7 9 9 7

abbrev pub default_role_weights : Dict Scores
default_role_weights =
    ("router", weights_of 4 8 7 9 10)
    ∷ ("supervisor", weights_of 5 10 7 10 5)
    ∷ ("scout", weights_of 3 8 8 8 7)
    ∷ ("explorer", weights_of 7 9 10 9 7)
    ∷ ("architect", weights_of 7 10 7 9 4)
    ∷ ("implementer", implementer_weights)
    ∷ ("reviewer", weights_of 9 10 8 9 6)
    ∷ ("compactor", weights_of 2 7 8 10 10)
    ∷ []

or_implementer : Option Scores → Scores
or_implementer none = implementer_weights
or_implementer (some w) = w

-- DEFAULT_ROLE_WEIGHTS[role] || DEFAULT_ROLE_WEIGHTS.implementer
unfoldable pub role_weights : String → Scores
unfolding or_implementer lookup
role_weights role = or_implementer (lookup role default_role_weights)

unfoldable pub valid_score : Option ℕ → ℕ
valid_score none = 0
valid_score (some n) = if leb n 1000 then n else 0

unfoldable pub normalized_scores : Dict ℕ → Scores
unfolding valid_score lookup
normalized_scores raw = record {
  coding = valid_score (lookup "coding" raw);
  reasoning = valid_score (lookup "reasoning" raw);
  tool_use = valid_score (lookup "tool_use" raw);
  reliability = valid_score (lookup "reliability" raw);
  latency = valid_score (lookup "latency" raw);
}

pub data Policy : Type 0 where
  quality balanced cost local free : Policy

unfoldable pub parse_policy : String → Option Policy
parse_policy s =
    if s == "quality"
    then some quality
    else if s == "balanced"
    then some balanced
    else if s == "cost"
    then some cost
    else if s == "local"
    then some local
    else if s == "free"
    then some free
    else none

-- ['local', 'free'].includes(s)
unfoldable pub is_boundary : Option String → Bool
is_boundary none = false
is_boundary (some s) = s == "local" || s == "free"

-- `value || …`: a missing text and the empty one fall through.
unfoldable pub filled : Option String → Option String
filled none = none
filled (some s) = if s == "" then none else some s

pub data SelectionError : Type 0 where
  bad_policy bad_minimum_score bad_weights bad_context_window no_inventory : SelectionError

or_quality : Option String → String
or_quality none = "quality"
or_quality (some s) = s

known_policy : Option Policy → Result SelectionError Policy
known_policy none = err bad_policy
known_policy (some p) = ok p

-- The policies that a pool and a task name.
unfoldable pub selection_policy : Option String → Option String → Result SelectionError Policy
unfolding filled or_quality known_policy parse_policy is_boundary
selection_policy pool task = known_policy (
    parse_policy
      (or_quality (if is_boundary pool then pool else (filled task or_else filled pool))))

-- A number that a user gives: missing (undefined or null), '', read in hundredths, or unreadable
-- (negative, infinite, or no number).
pub data Input : Type 0 where
  missing blank unreadable : Input
  number : ℕ → Input

-- a ?? b
unfoldable pub given : Input → Input → Input
given missing b = b
given a b = a

unfoldable pub bounded_number : Input → ℕ → ℕ → ℕ → SelectionError → Result SelectionError ℕ
bounded_number missing fallback low high e = ok fallback
bounded_number blank fallback low high e = ok fallback
bounded_number unreadable fallback low high e = err e
bounded_number (number n) fallback low high e = if ltb n low || ltb high n then err e else ok n

pub record Preferences : Type 0 where
  pub policy : Policy
  pub minimum_score : ℕ

unfoldable pub selection_preferences :
    Option String → Option String → Input → Input → Result SelectionError Preferences
unfolding given bounded_number
selection_preferences pool_policy task_policy pool_minimum task_minimum =
    selection_policy pool_policy task_policy >>= λ p.
    bounded_number (given task_minimum pool_minimum) 750 0 1000 bad_minimum_score >>= λ n.
    ok record { policy = p; minimum_score = n }

-- binding.split('/')[0]
first_part : String → Option ℕ → String
first_part binding none = binding
first_part binding (some i) = slice binding 0 i

-- The self-hosted provider is Ollama.
unfoldable pub is_local_model_binding : String → Bool
unfolding first_part
is_local_model_binding binding = first_part binding (find? binding "/") == "ollama"

-- A price of the registry: missing, null, or a finite number in units as small as the prices need.
pub data Price : Type 0 where
  no_price null_price : Price
  minus plus : ℕ → Price

unfoldable pub is_zero : Price → Bool
is_zero (minus n) = eqb n 0
is_zero (plus n) = eqb n 0
is_zero p = false

-- Number(price), with Math.max(0, …); null reads as 0.
unfoldable pub amount : Price → Option ℕ
amount no_price = none
amount null_price = some 0
amount (minus n) = some 0
amount (plus n) = some n

total : Option ℕ → Option ℕ → Option ℕ
total none none = none
total none (some b) = some b
total (some a) none = some a
total (some a) (some b) = some (a + b)

unfoldable pub static_cost : Price → Price → Option ℕ
unfolding amount total
static_cost input output = total (amount input) (amount output)

unfoldable pub is_free : Price → Price → Bool
unfolding is_zero
is_free input output = is_zero input && is_zero output

-- The numerator and the denominator of `weightedScore`, over the dimensions in their order.
unfoldable pub weighted_sums : List ℕ → List ℕ → ℕ × ℕ
weighted_sums (s ∷ ss) (w ∷ ws) =
    let (n, d) = weighted_sums ss ws in if ltb 0 s && ltb 0 w then (s * w + n, w + d) else (n, d)
weighted_sums ss ws = (0, 0)

abbrev pub dimensions : Scores → List ℕ
dimensions s = s.coding ∷ s.reasoning ∷ s.tool_use ∷ s.reliability ∷ s.latency ∷ []

-- The score as a fraction in hundredths; `none` where no dimension counts.
unfoldable pub weighted_score : Scores → Scores → Option (ℕ × ℕ)
unfolding weighted_sums
weighted_score scores weights =
    let sums = weighted_sums (dimensions scores) (dimensions weights) in
    if eqb sums.1 0 then none else some sums
