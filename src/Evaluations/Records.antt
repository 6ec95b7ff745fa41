-- ===== src/Evaluations/Records.antt =====
-- nla-model-evaluations.mjs: the store of the scores. The lock and the atomic write are not modelled: a
-- write replaces the file.
use next_level_agent.Base.{
  String, Bool, ◌&&◌, not, Option, none, some, [], all, leb, ◌==◌, Dict, lookup, insert,
  if◌then◌else◌,
}
use next_level_agent.Base.Result.{Result, ok, err, ◌>>=◌, ◌>>◌, throw_if}
use next_level_agent.Pools.Binding.{character_count}
use next_level_agent.Evaluations.Scores.{
  EvaluationError, bad_binding, bad_store, Scores, Measured, no_scores, in_range,
  update_evaluation_scores,
}

abbrev pub Store : Type 0
Store = Dict Scores

-- What is at the path: nothing, a text that is not a store, or the models of a store that was parsed.
pub data File : Type 0 where
  absent damaged : File
  holding : Store → File

-- `trim` is that of JavaScript.
unfoldable pub valid_binding : (String → String) → String → Bool
unfolding character_count
valid_binding trim b = not (trim b == "") && leb (character_count b) 256 && b == trim b

unfoldable pub valid_scores : Scores → Bool
valid_scores s =
    in_range 0 s.coding
    && in_range 0 s.reasoning
    && in_range 0 s.tool_use
    && in_range 0 s.reliability
    && in_range 0 s.latency

unfoldable pub valid_store : (String → String) → Store → Bool
unfolding valid_binding valid_scores
valid_store trim = all (λ (r : String × Scores). valid_binding trim r.0 && valid_scores r.1)

unfoldable pub validate_evaluation_store : (String → String) → Store → Result EvaluationError Store
validate_evaluation_store trim s = if valid_store trim s then ok s else err bad_store

-- `readValid`
unfoldable pub read_valid : (String → String) → File → Result EvaluationError Store
unfolding validate_evaluation_store
read_valid trim absent = ok []
read_valid trim damaged = err bad_store
read_valid trim (holding s) = validate_evaluation_store trim s

unfoldable pub or_no_scores : Option Scores → Scores
or_no_scores none = no_scores
or_no_scores (some s) = s

abbrev pub scores_in : String → Store → Scores
scores_in binding s = or_no_scores (lookup binding s)

-- `writeWithoutLock`: the file is written only when the store is valid.
unfoldable pub write_store :
    (String → String) → File → Result EvaluationError Store → File × Result EvaluationError Store
unfolding validate_evaluation_store
write_store trim file (err e) = (file, err e)
write_store trim file (ok s) =
    if valid_store trim s then (holding s, ok s) else (file, err bad_store)

unfoldable pub with_record :
    (String → String) → File → String → Measured → Result EvaluationError Store
unfolding read_valid or_no_scores lookup insert
with_record trim file binding m =
    throw_if (not (valid_binding trim binding)) bad_binding >> read_valid trim file >>= λ s.
    update_evaluation_scores (scores_in binding s) m >>= λ scores. ok (insert binding scores s)

unfoldable pub record_evaluation :
    (String → String) → File → String → Measured → File × Result EvaluationError Store
unfolding with_record write_store
record_evaluation trim file binding m = write_store trim file (with_record trim file binding m)
