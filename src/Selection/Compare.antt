-- ===== src/Selection/Compare.antt =====
-- nla-model-selection.mjs: the comparators of `rankByPolicy`, by which two candidates are in order at
-- least one way.
use Prim.Native.Nat.{Ordering, compare}
use next_level_agent.Base.{ℕ, zero, suc, ◌*◌, ◌≡◌, refl, true, false, Option, none, some, arith}
use next_level_agent.Selection.Rank.{
  Candidate, boosted, compare_scores, by_cost, by_rank, ◌or_then◌, compare_quality, compare_cost,
  not_after, quality_le, cost_le,
}

flip : Ordering → Ordering
flip Ordering.lt = Ordering.gt
flip Ordering.eq = Ordering.eq
flip Ordering.gt = Ordering.lt

compare-flip : (a b : ℕ) → compare b a ≡ flip (compare a b)
unfolding flip
compare-flip a b = ground arith

or_then-flip : (p q r s : Ordering) → p ≡ flip q → r ≡ flip s → (p or_then r) ≡ flip (q or_then s)
unfolding flip ◌or_then◌
or_then-flip p Ordering.lt r s h k = rw h
or_then-flip p Ordering.eq r s h k = rw h k
or_then-flip p Ordering.gt r s h k = rw h

compare_scores-flip : (a b : Option (ℕ × ℕ)) → compare_scores b a ≡ flip (compare_scores a b)
unfolding flip compare_scores
compare_scores-flip none none = refl
compare_scores-flip none (some b) = refl
compare_scores-flip (some a) none = refl
compare_scores-flip (some (n, d)) (some (m, e)) = compare-flip (n * e) (m * d)

by_cost-flip : (a b : Option ℕ) → by_cost b a ≡ flip (by_cost a b)
unfolding flip by_cost
by_cost-flip none none = refl
by_cost-flip none (some b) = refl
by_cost-flip (some a) none = refl
by_cost-flip (some a) (some b) = compare-flip a b

by_rank-flip : (a b : ℕ) → by_rank b a ≡ flip (by_rank a b)
unfolding flip by_rank
by_rank-flip zero zero = refl
by_rank-flip zero (suc b) = refl
by_rank-flip (suc a) zero = refl
by_rank-flip (suc a) (suc b) = compare-flip a b

compare_quality-flip : (x y : Candidate) → compare_quality y x ≡ flip (compare_quality x y)
unfolding compare_quality
compare_quality-flip x y = or_then-flip _ _ _ _ (compare_scores-flip (boosted y) (boosted x)) (
    or_then-flip _ _ _ _ (compare-flip y.scores.reliability x.scores.reliability) (
      or_then-flip _ _ _ _ (compare-flip y.provider_preference x.provider_preference) (
        or_then-flip _ _ _ _ (by_cost-flip x.cost y.cost) (
          or_then-flip _ _ _ _ (compare-flip y.scores.latency x.scores.latency) (
            or_then-flip _ _ _ _ (by_rank-flip x.preference_rank y.preference_rank)
              (compare-flip x.index y.index))))))

compare_cost-flip : (x y : Candidate) → compare_cost y x ≡ flip (compare_cost x y)
unfolding compare_cost
compare_cost-flip x y = or_then-flip _ _ _ _ (by_cost-flip x.cost y.cost) (compare_quality-flip x y)

connex_of : (o p : Ordering) → p ≡ flip o → not_after o ≡ false → not_after p ≡ true
unfolding flip not_after
connex_of Ordering.lt p h k = cc
connex_of Ordering.eq p h k = cc
connex_of Ordering.gt p h k = rw h

pub quality_connex : (x y : Candidate) → quality_le x y ≡ false → quality_le y x ≡ true
quality_connex x y =
    connex_of (compare_quality x y) (compare_quality y x) (compare_quality-flip x y)

pub cost_connex : (x y : Candidate) → cost_le x y ≡ false → cost_le y x ≡ true
cost_connex x y = connex_of (compare_cost x y) (compare_cost y x) (compare_cost-flip x y)
