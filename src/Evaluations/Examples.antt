-- ===== src/Evaluations/Examples.antt =====
-- Records of evaluations at concrete inputs.
use next_level_agent.Base.{
  ◌≡◌, refl, arith, String, true, false, some, [], ◌∷◌, lookup, insert, ◌==◌, if◌then◌else◌,
}
use next_level_agent.Base.Result.{ok}
use next_level_agent.Pools.Binding.{character_count}
use next_level_agent.Evaluations.Scores.{
  Fraction, Scores, Measured, in_range, mean, average_score, updated, update_evaluation_scores,
  runtime_evaluation_scores, latency_score_from_ms,
}
use next_level_agent.Evaluations.Records.{
  Store, holding, valid_binding, valid_scores, valid_store, or_no_scores, scores_in,
  record_evaluation,
}
use next_level_agent.Evaluations.Recorded.{IsMeasured, record_evaluation-holding}

abbrev trim : String → String
trim s = if s == " local/small" then "local/small" else s

abbrev eight : Fraction
eight = record { num = 8; den = 1 }

abbrev none_yet : Fraction
none_yet = record { num = 0; den = 1 }

abbrev old : Scores
old = record {
  coding = eight;
  reasoning = eight;
  tool_use = none_yet;
  reliability = eight;
  latency = none_yet;
}

abbrev store : Store
store = ("local/small", old) ∷ []

-- The run failed, in two seconds.
abbrev measured : Measured
measured = runtime_evaluation_scores false (some 2000)

abbrev new : Scores
new = record old { reliability = record { num = 9; den = 2 }; latency = eight }

store_is_valid : valid_store trim store ≡ true
unfolding valid_store valid_binding valid_scores in_range character_count
store_is_valid = refl

binding_is_valid : valid_binding trim "local/small" ≡ true
unfolding valid_binding character_count
binding_is_valid = refl

scores_are_updated : update_evaluation_scores (scores_in "local/small" store) measured ≡ ok new
unfolding update_evaluation_scores updated average_score in_range mean or_no_scores lookup
    runtime_evaluation_scores latency_score_from_ms
scores_are_updated = refl

measured-IsMeasured : IsMeasured measured
unfolding runtime_evaluation_scores latency_score_from_ms
measured-IsMeasured = record {
  coding = tt;
  reasoning = tt;
  tool_use = tt;
  reliability = (omega arith, omega arith, omega arith);
  latency = (omega arith, omega arith, omega arith);
}

record_evaluation-holding_example :
    (got : Scores) × (update_evaluation_scores (scores_in "local/small" store) measured ≡ ok got)
    × (record_evaluation trim (holding store) "local/small" measured
        ≡ (holding (insert "local/small" got store), ok (insert "local/small" got store)))
    × (valid_store trim (insert "local/small" got store) ≡ true)
    × (lookup "local/small" (insert "local/small" got store) ≡ some got)
    × ((other : String)
        → ("local/small" == other) ≡ false
        → lookup other (insert "local/small" got store) ≡ lookup other store)
record_evaluation-holding_example =
    record_evaluation-holding trim store "local/small" measured store_is_valid binding_is_valid
      measured-IsMeasured
