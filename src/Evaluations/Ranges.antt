-- ===== src/Evaluations/Ranges.antt =====
-- Scores stay in their range, and a mean lies between its scores.
use native.Mathlib.Nat.{mul_comm, mul_assoc, mul-le-mul, mul-le-mul_right}
use next_level_agent.Base.{
  ℕ, ◌+◌, ◌*◌, ◌≤◌, ◌≡◌, subst, Bool, true, false, ◌&&◌, ◌||◌, not, Option, none, some, eqb, leb,
  Bool-cases, inl, inr, arith,
}
use next_level_agent.Base.Result.{ok, if_err-eq-ok, ok_injective}
use next_level_agent.Evaluations.Scores.{Fraction, in_range, mean, average_score, updated}

-- a ≤ b, of fractions
abbrev pub IsAtMost : Fraction → Fraction → Type 0
IsAtMost a b = a.num * b.den ≤ b.num * a.den

not-false : (b : Bool) → not b ≡ false → b ≡ true
not-false b h = ground arith

range_parts :
    (x n d : ℕ)
    → (not (eqb d 0) && leb x n && leb n (10 * d)) ≡ true
    → (1 ≤ d) × (x ≤ n) × (n ≤ 10 * d)
range_parts x n d h = ground arith

range_true :
    (x n d : ℕ) → 1 ≤ d → x ≤ n → n ≤ 10 * d → (not (eqb d 0) && leb x n && leb n (10 * d)) ≡ true
range_true x n d h k l = ground arith

-- n ≤ 10 d, multiplied by e
scaled : (n d e : ℕ) → n ≤ 10 * d → n * e ≤ 10 * (d * e)
scaled n d e h = subst (λ x. n * e ≤ x) (mul_assoc 10 d e) (mul-le-mul_right e h)

pub in_range-mean :
    (a b : Fraction) → in_range 0 a ≡ true → in_range 1 b ≡ true → in_range 0 (mean a b) ≡ true
unfolding mean in_range
in_range-mean a b h k =
    let (d, _, u) = range_parts (0 * a.den) a.num a.den h in
    let (e, _, v) = range_parts (1 * b.den) b.num b.den k in
    let p = mul-le-mul d e in
    let q = scaled a.num a.den b.den u in
    let r =
      subst (λ x. b.num * a.den ≤ 10 * x) (mul_comm b.den a.den) (scaled b.num b.den a.den v) in
    range_true (0 * (2 * (a.den * b.den))) (a.num * b.den + b.num * a.den) (2 * (a.den * b.den))
      (omega arith) (omega arith) (omega arith)

pub in_range_weaken : (f : Fraction) → in_range 1 f ≡ true → in_range 0 f ≡ true
unfolding in_range
in_range_weaken f h =
    let (d, _, u) = range_parts (1 * f.den) f.num f.den h in range_true _ _ _ d (omega arith) u

pub updated-in_range :
    (old : Fraction) (m : Option Fraction) {f : Fraction}
    → in_range 0 old ≡ true
    → updated old m ≡ ok f
    → in_range 0 f ≡ true
unfolding updated average_score
updated-in_range old none h k = subst (λ f. in_range 0 f ≡ true) (ok_injective k) h
updated-in_range old (some c) h k =
    let (b, k1) = if_err-eq-ok (not (in_range 1 c)) _ _ k in
    let good = not-false (in_range 1 c) b in
    elim (Bool-cases (not (in_range 0 old) || eqb old.num 0)) [
      | inl e ↦
          subst (λ f. in_range 0 f ≡ true) (ok_injective (rw e at k1)) (in_range_weaken c good)
      | inr e ↦
          subst (λ f. in_range 0 f ≡ true) (ok_injective (rw e at k1)) (in_range-mean old c h good)
    ]
