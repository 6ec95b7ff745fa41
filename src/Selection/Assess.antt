-- ===== src/Selection/Assess.antt =====
-- nla-task-assessor.mjs: risk, complexity and weights of a task, by rules.
-- Weights are in hundredths and the confidence in tenths. The regular expressions are parameters.
use Prim.Native.String.{◌++◌ as text_append}
use next_level_agent.Base.{
  ℕ, ◌+◌, ◌/◌, max, min, String, Bool, true, false, ◌&&◌, ◌||◌, not, Option, none, some, List, [],
  ◌∷◌, leb, ltb, eqb, ◌==◌, if◌then◌else◌,
}
use next_level_agent.Selection.Policy.{Scores, role_weights}

-- What the regular expressions say of a text, its length, and the counts of their matches.
pub record Patterns : Type 0 where
  pub critical : String → Bool
  pub high : String → Bool
  pub low : String → Bool
  pub complex : String → Bool
  pub tools : String → Bool
  pub latency : String → Bool
  pub large_context : String → Bool
  pub size : String → ℕ
  pub newlines : String → ℕ
  pub requirements : String → ℕ

pub data Level : Type 0 where
  low medium high critical : Level

-- LEVEL[level] >= LEVEL.high
abbrev pub at_least_high : Level → Bool
at_least_high high = true
at_least_high critical = true
at_least_high l = false

abbrev pub is_high : Level → Bool
is_high high = true
is_high l = false

abbrev pub is_low : Level → Bool
is_low low = true
is_low l = false

pub record Assessment : Type 0 where
  pub risk : Level
  pub complexity : Level
  pub weights : Scores
  pub context_window : Option ℕ
  pub policy : Option String
  pub confidence : ℕ
  pub reasons : List String

abbrev count : Bool → ℕ
count true = 1
count false = 0

unfoldable pub risk_of : Patterns → String → Level
risk_of p text =
    if p.critical text
    then critical
    else if p.high text
    then high
    else if p.low text
    then low
    else medium

unfoldable pub structural_signals : Patterns → String → ℕ
structural_signals p text =
    count (ltb 6000 (p.size text))
    + count (ltb 40 (p.newlines text))
    + count (leb 4 (p.requirements text))
    + count (p.complex text)

-- An architect's or a reviewer's task is never of low complexity.
unfoldable pub complexity_of : String → ℕ → Level
complexity_of role signals =
    if leb 2 signals
    then high
    else if eqb signals 1 || role == "architect" || role == "reviewer"
    then medium
    else low

unfoldable pub for_risk : Level → Scores → Scores
for_risk risk w =
    if at_least_high risk
    then record w {
      reliability = 1000;
      reasoning = max w.reasoning 900;
      latency = min w.latency 500;
    }
    else w

unfoldable pub for_complexity : Level → Scores → Scores
for_complexity complexity w =
    if is_high complexity
    then record w { reasoning = max w.reasoning 900; tool_use = max w.tool_use 800 }
    else w

unfoldable pub for_tools : Bool → Scores → Scores
for_tools b w = if b then record w { tool_use = max w.tool_use 900 } else w

unfoldable pub for_latency : Bool → Scores → Scores
for_latency b w = if b then record w { latency = max w.latency 900 } else w

-- `if (b) reasons.push(reason)`, before the later ones
abbrev add_if : Bool → String → List String → List String
add_if b reason rest = if b then reason ∷ rest else rest

or_default : List String → List String
or_default [] = "role defaults and bounded task size" ∷ []
or_default (r ∷ rs) = r ∷ rs

some_reason : List String → ℕ
some_reason [] = 0
some_reason (r ∷ rs) = 1

-- Math.ceil(length / 4)
abbrev estimated_tokens : ℕ → ℕ
estimated_tokens n = (n + 3) / 4

unfoldable pub context_for : Bool → ℕ → Option ℕ
context_for large tokens =
    if large || ltb 48000 tokens
    then some 131072
    else if ltb 16000 tokens
    then some 65536
    else if ltb 6000 tokens
    then some 32768
    else none

unfoldable pub policy_for : Level → Level → Option String
policy_for risk complexity =
    if at_least_high risk
    then some "quality"
    else if is_low complexity
    then some "balanced"
    else none

unfoldable pub clamp : ℕ → ℕ → ℕ → ℕ
clamp value minimum maximum = max minimum (min maximum value)

unfoldable pub deterministic_assessment : Patterns → String → String → String → Assessment
unfolding or_default some_reason
deterministic_assessment p role description prompt =
    let text = text_append description (text_append "\n" prompt) in
    let risk = risk_of p text in
    let signals = structural_signals p text in
    let complexity = complexity_of role signals in
    let hurry = p.latency text && not (at_least_high risk) in
    let reasons = add_if (at_least_high risk) "high-risk change" (
      add_if (is_high complexity) "high task complexity" (
        add_if (p.tools text) "tool-dependent work"
          (add_if hurry "latency-sensitive request" []))) in
    record {
      risk = risk;
      complexity = complexity;
      weights = for_latency hurry (
          for_tools (p.tools text) (for_complexity complexity (for_risk risk (role_weights role))));
      context_window = context_for (p.large_context text) (estimated_tokens (p.size text));
      policy = policy_for risk complexity;
      confidence = clamp (5 + signals + some_reason reasons) 5 9;
      reasons = or_default reasons;
    }
