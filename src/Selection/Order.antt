-- ===== src/Selection/Order.antt =====
-- nla-model-selection.mjs: the orders that `rankByPolicy` returns.
use mathlib.Core.List.{Perm}
use mathlib.Core.List.Perm
use next_level_agent.Base.{
  String, eqb, if◌then◌else◌, if_cases, ℕ, zero, suc, ◌+◌, ◌*◌, ◌≤◌, ◌<◌, [], ◌∷◌, In, ◌≡◌, Option,
  none, some, List, ◌++◌, All, arith,
}
use next_level_agent.Selection.Candidates.{
  Task, candidate_at, candidates_from, evaluated_scores, weights_for,
}
use next_level_agent.Selection.Policy.{
  Scores, weighted_score, weighted_sums, dimensions, Policy, balanced, cost,
}
use next_level_agent.Selection.Near.{
  Score, IsAtLeast, IsNear, IsFar, HasDenominator, HasDenominators,
}
use next_level_agent.Selection.Rank.{boosted_score, Candidate, boosted}

-- Each element stands in a relation to the next one.
abbrev pub Chained : (Candidate → Candidate → Type 0) → List Candidate → Type 0
Chained R [] = Unit
Chained R (x ∷ []) = Unit
Chained R (x ∷ (y ∷ ys)) = R x y × Chained R (y ∷ ys)

-- The first cost is known and at most the second, or the second is not known.
abbrev pub IsAsCheap : Option ℕ → Option ℕ → Type 0
IsAsCheap a none = Unit
IsAsCheap none (some b) = ⊥
IsAsCheap (some a) (some b) = a ≤ b

-- Not dearer, and not better scored, than the next: the orders that the rankings promise.
abbrev pub ByCost : Candidate → Candidate → Type 0
ByCost x y = IsAsCheap x.cost y.cost

abbrev pub ByScore : Candidate → Candidate → Type 0
ByScore x y = IsAtLeast (boosted x) (boosted y)

-- A score of at least the minimum, in hundredths; a candidate without a score has none.
abbrev pub Reaches : ℕ → Score → Type 0
Reaches minimum none = ⊥
Reaches minimum (some (n, d)) = minimum * d ≤ n

abbrev pub IsUnder : ℕ → Score → Type 0
IsUnder minimum none = Unit
IsUnder minimum (some (n, d)) = n < minimum * d

-- What a ranking of `cs` is. By cost: the cheapest first, of those that reach the minimum score, and
-- only those under it are dropped. Balanced: all of them, first those within a point of every
-- candidate, the cheapest first, then those more than a point under some, the best first. Otherwise:
-- all of them, the best first.
abbrev pub IsRanked : Policy → ℕ → List Candidate → List Candidate → Type 0
IsRanked cost minimum cs ranked =
    (dropped : List Candidate) × Perm (ranked ++ dropped) cs
    × Chained ByCost ranked
    × All (λ c. Reaches minimum c.score) ranked
    × All (λ c. IsUnder minimum c.score) dropped
IsRanked balanced minimum cs ranked =
    (front : List Candidate) × (back : List Candidate) × (ranked ≡ front ++ back)
    × Perm ranked cs
    × Chained ByCost front
    × All (λ c. All (λ x. IsNear (boosted c) (boosted x)) cs) front
    × Chained ByScore back
    × All (λ c. (x : Candidate) × In x cs × IsFar (boosted c) (boosted x)) back
IsRanked p minimum cs ranked = Perm ranked cs × Chained ByScore ranked

boosted-HasDenominator : (c : Candidate) → HasDenominator c.score → HasDenominator (boosted c)
unfolding boosted boosted_score
boosted-HasDenominator c h = raised c.preference_rank c.score h
  where
    raised : (rank : ℕ) (s : Score) → HasDenominator s → HasDenominator (boosted_score rank s)
    raised zero s h = h
    raised (suc r) none h = tt
    raised (suc r) (some (n, d)) h = h

weighted_score-HasDenominator :
    (scores weights : Scores) → HasDenominator (weighted_score scores weights)
unfolding weighted_score
weighted_score-HasDenominator scores weights =
    divided (weighted_sums (dimensions scores) (dimensions weights))
  where
    divided : (sums : ℕ × ℕ) → HasDenominator (if eqb sums.1 0 then none else some sums)
    divided (n, d) =
        if_cases HasDenominator (eqb d 0) none (some (n, d)) (λ _. tt) (λ e. ground arith)

-- The candidates of a task have scores with denominators.
pub candidates_from-HasDenominators :
    (t : Task) (policy : Policy) (i : ℕ) (bs : List String)
    → HasDenominators (candidates_from t policy i bs)
unfolding candidates_from candidate_at
candidates_from-HasDenominators t policy i [] = tt
candidates_from-HasDenominators t policy i (b ∷ bs) = (
  boosted-HasDenominator (candidate_at t policy b i)
      (weighted_score-HasDenominator (evaluated_scores t.evaluations b) (weights_for t)),
  candidates_from-HasDenominators t policy (i + 1) bs,
)
