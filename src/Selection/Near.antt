-- ===== src/Selection/Near.antt =====
-- nla-model-selection.mjs: the best score of the candidates, and the scores within a point of it.
use native.Mathlib.Nat.{
  mul_right_comm, mul-le-mul_right, le_of_mul-le-mul_right, mul_assoc, add-mul,
}
use next_level_agent.Base.{
  ℕ, ◌+◌, ◌*◌, ◌≤◌, ◌<◌, ◌≡◌, refl, subst, true, false, Option, none, some, List, [], ◌∷◌, All, In,
  Bool-cases, ◌⊎◌, inl, inr, arith, leb, if_cases, leb→le,
}
use next_level_agent.Selection.Rank.{
  Candidate, boosted, compare_scores, not_after, best_score, near, is_viable,
}

-- A score in hundredths as a fraction, of a candidate that has one.
abbrev pub Score : Type 0
Score = Option (ℕ × ℕ)

-- The first score is as high as the second.
abbrev pub IsAtLeast : Score → Score → Type 0
IsAtLeast s none = Unit
IsAtLeast none (some q) = ⊥
IsAtLeast (some (n, d)) (some (m, e)) = m * d ≤ n * e

-- The first score is at most one point (a hundred hundredths) under the second.
abbrev pub IsNear : Score → Score → Type 0
IsNear s none = Unit
IsNear none (some q) = ⊥
IsNear (some (n, d)) (some (m, e)) = m * d ≤ (n + 100 * d) * e

-- The first score is more than one point under the second.
abbrev pub IsFar : Score → Score → Type 0
IsFar s none = ⊥
IsFar none (some q) = Unit
IsFar (some (n, d)) (some (m, e)) = (n + 100 * d) * e < m * d

abbrev pub HasDenominator : Score → Type 0
HasDenominator none = Unit
HasDenominator (some (n, d)) = 1 ≤ d

leb-false : (a b : ℕ) → leb a b ≡ false → b < a
leb-false a b h = ground arith

cross_trans : (p f m e n d : ℕ) → p * e ≤ m * f → m * d ≤ n * e → 1 ≤ e → p * d ≤ n * f
cross_trans p f m e n d h k pos =
    let a : p * e * d ≤ m * f * d = mul-le-mul_right d h in
    let b : m * d * f ≤ n * e * f = mul-le-mul_right f k in
    le_of_mul-le-mul_right
      (omega (arith, a, b, mul_right_comm p e d, mul_right_comm m f d, mul_right_comm n e f)) pos

IsAtLeast-trans : (r s t : Score) → HasDenominator s → IsAtLeast r s → IsAtLeast s t → IsAtLeast r t
IsAtLeast-trans r s none pos h k = tt
IsAtLeast-trans r none (some q) pos h k = absurd k
IsAtLeast-trans none (some p) (some q) pos h k = absurd h
IsAtLeast-trans (some (n, d)) (some (m, e)) (some (p, f)) pos h k = cross_trans p f m e n d k h pos

IsNear-trans : (r s t : Score) → HasDenominator s → IsNear r s → IsAtLeast s t → IsNear r t
IsNear-trans r s none pos h k = tt
IsNear-trans r none (some q) pos h k = absurd k
IsNear-trans none (some p) (some q) pos h k = absurd h
IsNear-trans (some (n, d)) (some (m, e)) (some (p, f)) pos h k =
    cross_trans p f m e (n + 100 * d) d k h pos

-- What the comparison of scores says of them.
pub not_after-IsAtLeast : (s t : Score) → not_after (compare_scores s t) ≡ true → IsAtLeast t s
unfolding not_after compare_scores
not_after-IsAtLeast none t h = tt
not_after-IsAtLeast (some q) none h = cc
not_after-IsAtLeast (some (n, d)) (some (m, e)) h = ground arith

after-IsAtLeast : (s t : Score) → not_after (compare_scores s t) ≡ false → IsAtLeast s t
unfolding not_after compare_scores
after-IsAtLeast s none h = tt
after-IsAtLeast none (some q) h = cc
after-IsAtLeast (some (n, d)) (some (m, e)) h = ground arith

IsAtLeast-refl : (s : Score) → IsAtLeast s s
IsAtLeast-refl none = tt
IsAtLeast-refl (some (n, d)) = omega arith

abbrev pub HasDenominators : List Candidate → Type 0
HasDenominators = All (λ c. HasDenominator (boosted c))

best_score-HasDenominator :
    (cs : List Candidate) → HasDenominators cs → HasDenominator (best_score cs)
unfolding best_score
best_score-HasDenominator [] h = tt
best_score-HasDenominator (c ∷ cs) (p, h) =
    elim (Bool-cases (not_after (compare_scores (best_score cs) (boosted c)))) [
      | inl e ↦ rw e p
      | inr e ↦ rw e (best_score-HasDenominator cs h)
    ]

below-All :
    (s t : Score) (cs : List Candidate)
    → HasDenominator t
    → IsAtLeast s t
    → All (λ c. IsAtLeast t (boosted c)) cs
    → All (λ c. IsAtLeast s (boosted c)) cs
below-All s t [] pos k h = tt
below-All s t (c ∷ cs) pos k (p, h) =
    (IsAtLeast-trans s t (boosted c) pos k p, below-All s t cs pos k h)

best_score-IsAtLeast :
    (cs : List Candidate) → HasDenominators cs → All (λ c. IsAtLeast (best_score cs) (boosted c)) cs
unfolding best_score
best_score-IsAtLeast [] h = tt
best_score-IsAtLeast (c ∷ cs) (p, h) =
    if_cases (λ s. All (λ x. IsAtLeast s (boosted x)) (c ∷ cs))
      (not_after (compare_scores (best_score cs) (boosted c))) (boosted c) (best_score cs)
      (λ e. (
        IsAtLeast-refl (boosted c),
        below-All (boosted c) (best_score cs) cs (best_score-HasDenominator cs h)
            (not_after-IsAtLeast (best_score cs) (boosted c) e) (best_score-IsAtLeast cs h),
      ))
      (λ e. (after-IsAtLeast (best_score cs) (boosted c) e, best_score-IsAtLeast cs h))

IsNear-All :
    (s t : Score) (cs : List Candidate)
    → HasDenominator t
    → IsNear s t
    → All (λ c. IsAtLeast t (boosted c)) cs
    → All (λ c. IsNear s (boosted c)) cs
IsNear-All s t [] pos k h = tt
IsNear-All s t (c ∷ cs) pos k (p, h) =
    (IsNear-trans s t (boosted c) pos k p, IsNear-All s t cs pos k h)

-- The best score is that of a candidate, or there is none.
best_score-In :
    (cs : List Candidate)
    → (best_score cs ≡ none) ⊎ ((x : Candidate) × In x cs × (best_score cs ≡ boosted x))
unfolding best_score
best_score-In [] = inl refl
best_score-In (c ∷ cs) =
    if_cases (λ s. (s ≡ none) ⊎ ((x : Candidate) × In x (c ∷ cs) × (s ≡ boosted x)))
      (not_after (compare_scores (best_score cs) (boosted c))) (boosted c) (best_score cs)
      (λ e. inr (c, inl refl, refl))
      (λ e. elim (best_score-In cs) [ inl k ↦ inl k | inr (x, here, k) ↦ inr (x, inr here, k) ])

viable-IsNear : (best : Score) (c : Candidate) → is_viable best c ≡ true → IsNear (boosted c) best
unfolding is_viable near
viable-IsNear best c h = near_of best (boosted c) h
  where
    near_of : (best s : Score) → near best s ≡ true → IsNear s best
    near_of none s h = tt
    near_of (some q) none h = cc
    near_of (some (m, e)) (some (n, d)) h =
        omega (
          arith,
          leb→le (m * d) (n * e + 100 * (d * e)) h,
          mul_assoc 100 d e,
          add-mul n (100 * d) e,
        )

other-IsFar : (best : Score) (c : Candidate) → is_viable best c ≡ false → IsFar (boosted c) best
unfolding is_viable near
other-IsFar best c h = far_of best (boosted c) h
  where
    far_of : (best s : Score) → near best s ≡ false → IsFar s best
    far_of none s h = cc
    far_of (some q) none h = tt
    far_of (some (m, e)) (some (n, d)) h = omega (
      arith,
      leb-false (m * d) (n * e + 100 * (d * e)) h,
      mul_assoc 100 d e,
      add-mul n (100 * d) e,
    )

-- A viable candidate is within a point of every candidate.
pub viable-IsNear-All :
    (cs : List Candidate) (c : Candidate)
    → HasDenominators cs
    → is_viable (best_score cs) c ≡ true
    → All (λ x. IsNear (boosted c) (boosted x)) cs
viable-IsNear-All cs c h v =
    IsNear-All (boosted c) (best_score cs) cs (best_score-HasDenominator cs h)
      (viable-IsNear (best_score cs) c v) (best_score-IsAtLeast cs h)

-- Any other is more than a point under some candidate.
pub other-IsFar_from :
    (cs : List Candidate) (c : Candidate)
    → is_viable (best_score cs) c ≡ false
    → (x : Candidate) × In x cs × IsFar (boosted c) (boosted x)
other-IsFar_from cs c v = elim (best_score-In cs) [
  | inl k ↦ absurd (subst (IsFar (boosted c)) k (other-IsFar (best_score cs) c v))
  | inr (x, here, k) ↦ (x, here, subst (IsFar (boosted c)) k (other-IsFar (best_score cs) c v))
]
