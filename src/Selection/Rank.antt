-- ===== src/Selection/Rank.antt =====
-- nla-model-selection.mjs: the candidates for a task, their order, and the ranking by policy.
use Prim.Native.Nat.{Ordering, compare}
use next_level_agent.Base.{
  ℕ, zero, suc, ◌+◌, ◌*◌, String, Bool, true, false, ◌||◌, not, Option, none, some, List, [], ◌∷◌,
  ◌++◌, select, Dict, lookup, leb, eqb, if◌then◌else◌,
}
use next_level_agent.Base.Order.{sort_by}
use next_level_agent.Health.Manager.{Manager, State, Label, available, state}
use next_level_agent.Selection.Policy.{
  Scores, Policy, quality, balanced, cost, local, free, Preferences,
}
use next_level_agent.Selection.Pool.{Facts}

-- A health manager, a plain map of entries (label and end of the cooldown), or neither.
pub data Health : Type 0 where
  no_health : Health
  managed : Manager → Health
  plain : Dict (Label × ℕ) → Health

abbrev ready : State
ready = record { label = available; eligible = true; until = none; remaining_ms = 0 }

plain_state : ℕ → Option (Label × ℕ) → State
plain_state now none = ready
plain_state now (some (label, until)) =
    if eqb until 0 || leb until now
    then ready
    else record { label = label; eligible = false; until = some until; remaining_ms = 0 }

unfoldable pub health_for : Health → String → String → ℕ → State
unfolding plain_state lookup
health_for no_health binding endpoint now = ready
health_for (managed m) binding endpoint now = state m now binding endpoint
health_for (plain entries) binding endpoint now = plain_state now (lookup binding entries)

pub record Candidate : Type 0 where
  pub binding : String
  pub index : ℕ
  pub facts : Facts
  pub health : State
  pub scores : Scores
  pub preference_rank : ℕ
  pub provider_preference : ℕ
  pub cost : Option ℕ
  pub score : Option (ℕ × ℕ)
  pub reasons : List String

unfoldable pub is_none : List String → Bool
is_none [] = true
is_none (r ∷ rs) = false

-- `score + (preference_rank ? 0.25 : 0)`, as a fraction in hundredths; `none` is -1.
unfoldable pub boosted_score : ℕ → Option (ℕ × ℕ) → Option (ℕ × ℕ)
boosted_score zero score = score
boosted_score (suc r) none = none
boosted_score (suc r) (some (n, d)) = some (n + 25 * d, d)

unfoldable pub boosted : Candidate → Option (ℕ × ℕ)
unfolding boosted_score
boosted c = boosted_score c.preference_rank c.score

unfoldable pub compare_scores : Option (ℕ × ℕ) → Option (ℕ × ℕ) → Ordering
compare_scores none none = Ordering.eq
compare_scores none (some b) = Ordering.lt
compare_scores (some a) none = Ordering.gt
compare_scores (some (n, d)) (some (m, e)) = compare (n * e) (m * d)

unfoldable pub by_cost : Option ℕ → Option ℕ → Ordering
by_cost none none = Ordering.eq
by_cost none (some b) = Ordering.gt
by_cost (some a) none = Ordering.lt
by_cost (some a) (some b) = compare a b

-- (left || Infinity) - (right || Infinity)
unfoldable pub by_rank : ℕ → ℕ → Ordering
by_rank zero zero = Ordering.eq
by_rank zero (suc r) = Ordering.gt
by_rank (suc l) zero = Ordering.lt
by_rank (suc l) (suc r) = compare l r

infixr 5 ◌or_then◌
unfoldable pub ◌or_then◌ : Ordering → Ordering → Ordering
Ordering.lt or_then o = Ordering.lt
Ordering.eq or_then o = o
Ordering.gt or_then o = Ordering.gt

-- The sign of the comparator's answer: `lt` is negative, left before right.
unfoldable pub compare_quality : Candidate → Candidate → Ordering
compare_quality left right =
    compare_scores (boosted right) (boosted left)
    or_then compare right.scores.reliability left.scores.reliability
    or_then compare right.provider_preference left.provider_preference
    or_then by_cost left.cost right.cost
    or_then compare right.scores.latency left.scores.latency
    or_then by_rank left.preference_rank right.preference_rank
    or_then compare left.index right.index

unfoldable pub compare_cost : Candidate → Candidate → Ordering
compare_cost left right = by_cost left.cost right.cost or_then compare_quality left right

unfoldable pub not_after : Ordering → Bool
not_after Ordering.gt = false
not_after o = true

abbrev pub quality_le : Candidate → Candidate → Bool
quality_le left right = not_after (compare_quality left right)

abbrev pub cost_le : Candidate → Candidate → Bool
cost_le left right = not_after (compare_cost left right)

-- Math.max over the boosted scores, where `none` is -1 or -Infinity.
unfoldable pub best_score : List Candidate → Option (ℕ × ℕ)
unfolding not_after compare_scores
best_score [] = none
best_score (c ∷ cs) =
    let rest = best_score cs in
    if not_after (compare_scores rest (boosted c)) then boosted c else rest

-- Within one point of the best.
unfoldable pub near : Option (ℕ × ℕ) → Option (ℕ × ℕ) → Bool
near none s = true
near (some b) none = false
near (some (m, e)) (some (n, d)) = leb (m * d) (n * e + 100 * (d * e))

unfoldable pub is_viable : Option (ℕ × ℕ) → Candidate → Bool
unfolding near
is_viable best c = near best (boosted c)

unfoldable pub reaches : ℕ → Option (ℕ × ℕ) → Bool
reaches minimum none = false
reaches minimum (some (n, d)) = leb (minimum * d) n

-- candidate.score !== null && candidate.score >= preferences.minimum_score
unfoldable pub is_qualified : ℕ → Candidate → Bool
unfolding reaches
is_qualified minimum c = reaches minimum c.score

unfoldable pub rank_balanced : List Candidate → List Candidate
rank_balanced cs =
    sort_by cost_le (select (is_viable (best_score cs)) cs)
    ++ sort_by quality_le (select (λ c. not (is_viable (best_score cs) c)) cs)

unfoldable pub rank_under : Policy → ℕ → List Candidate → List Candidate
rank_under quality minimum cs = sort_by quality_le cs
rank_under local minimum cs = sort_by quality_le cs
rank_under free minimum cs = sort_by quality_le cs
rank_under balanced minimum cs = rank_balanced cs
rank_under cost minimum cs = sort_by cost_le (select (is_qualified minimum) cs)

abbrev pub rank_by_policy : List Candidate → Preferences → List Candidate
rank_by_policy cs p = rank_under p.policy p.minimum_score cs
