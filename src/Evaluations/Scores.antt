-- ===== src/Evaluations/Scores.antt =====
-- nla-model-evaluations.mjs: scores, and how an evaluation changes them.
use next_level_agent.Base.{
  ℕ, ◌+◌, ◌*◌, Bool, ◌&&◌, ◌||◌, not, Option, none, some, eqb, leb, if◌then◌else◌,
}
use next_level_agent.Base.Result.{Result, ok, err, ◌>>=◌}

pub data EvaluationError : Type 0 where
  bad_binding bad_score bad_store : EvaluationError

-- A finite number that is not negative, as an exact fraction.
pub record Fraction : Type 0 where
  pub num : ℕ
  pub den : ℕ

-- `score(value, allowZero)` is a number: from `low`, which is 0 or 1, to 10.
unfoldable pub in_range : ℕ → Fraction → Bool
in_range low f = not (eqb f.den 0) && leb (low * f.den) f.num && leb f.num (10 * f.den)

abbrev pub zero_score : Fraction
zero_score = record { num = 0; den = 1 }

-- (old + current) / 2
unfoldable pub mean : Fraction → Fraction → Fraction
mean a b = record { num = a.num * b.den + b.num * a.den; den = 2 * (a.den * b.den) }

-- A score of 0 is none yet.
unfoldable pub average_score : Fraction → Fraction → Result EvaluationError Fraction
unfolding in_range mean
average_score old current =
    if not (in_range 1 current)
    then err bad_score
    else if not (in_range 0 old) || eqb old.num 0
    then ok current
    else ok (mean old current)

pub record Scores : Type 0 where
  pub coding : Fraction
  pub reasoning : Fraction
  pub tool_use : Fraction
  pub reliability : Fraction
  pub latency : Fraction

-- The scores of one evaluation; what was not measured is `none`.
pub record Measured : Type 0 where
  pub coding : Option Fraction
  pub reasoning : Option Fraction
  pub tool_use : Option Fraction
  pub reliability : Option Fraction
  pub latency : Option Fraction

unfoldable pub updated : Fraction → Option Fraction → Result EvaluationError Fraction
updated old none = ok old
updated old (some current) = average_score old current

abbrev pub no_scores : Scores
no_scores = record {
  coding = zero_score;
  reasoning = zero_score;
  tool_use = zero_score;
  reliability = zero_score;
  latency = zero_score;
}

-- The scores of a record are those of a valid store, or 0 where there is none.
unfoldable pub update_evaluation_scores : Scores → Measured → Result EvaluationError Scores
unfolding updated
update_evaluation_scores old m = updated old.coding m.coding >>= λ coding.
    updated old.reasoning m.reasoning >>= λ reasoning.
    updated old.tool_use m.tool_use >>= λ tool_use.
    updated old.reliability m.reliability >>= λ reliability.
    updated old.latency m.latency >>= λ latency. ok record {
      coding = coding;
      reasoning = reasoning;
      tool_use = tool_use;
      reliability = reliability;
      latency = latency;
    }

unfoldable pub latency_score_from_ms : ℕ → ℕ
latency_score_from_ms ms =
    if leb ms 1000
    then 10
    else if leb ms 3000
    then 8
    else if leb ms 10000
    then 6
    else if leb ms 30000
    then 4
    else 2

whole : ℕ → Fraction
whole n = record { num = n; den = 1 }

measured_latency : Option ℕ → Option Fraction
unfolding latency_score_from_ms whole
measured_latency none = none
measured_latency (some ms) = some (whole (latency_score_from_ms ms))

-- Of a run: whether it succeeded, and its time, if it was measured.
unfoldable pub runtime_evaluation_scores : Bool → Option ℕ → Measured
unfolding whole measured_latency
runtime_evaluation_scores succeeded elapsed_ms = record {
  coding = none;
  reasoning = none;
  tool_use = none;
  reliability = some (if succeeded then whole 10 else whole 1);
  latency = measured_latency elapsed_ms;
}
