-- ===== src/Child/Examples.antt =====
-- The recovery of a child at concrete inputs.
use next_level_agent.Base.{◌≡◌, ◌↔◌, inr, refl, true, false, none, some, [], ◌∷◌}
use next_level_agent.Base.Result.{ok}
use next_level_agent.Child.Resume.{
  context_limit, Tokens, Reply, Course, total_of, has_text, by_length, by_text,
  incomplete_child_result, recover_child_result,
}
use next_level_agent.Child.Outcomes.{
  IsStartOf, protocol, recover_child_result-IsStartOf, IsTaken, recover_child_result_ok,
}

abbrev tokens : Tokens
tokens = record { total = 0; input = 900; output = 60; cache_read = 40; cache_write = 0 }

abbrev cut : Reply
cut = record { error = none; finish = "length"; tokens = tokens; parts = [] }

abbrev answer : Reply
answer = record {
  error = none;
  finish = "stop";
  tokens = tokens;
  parts = record { kind = "text"; has_text = true } ∷ [];
}

abbrev calm : Course
calm = record {
  at_start = false;
  at_reason = false;
  after_compaction = false;
  after_reply = false;
  at_catch = false;
  compacted = true;
  reply = some answer;
}

abbrev given_up : Course
given_up = record calm { after_reply = true; at_catch = true }

cut_is_incomplete : incomplete_child_result cut 1000 ≡ some context_limit
unfolding incomplete_child_result by_length total_of
cut_is_incomplete = refl

answer_is_complete : incomplete_child_result answer 1000 ≡ none
unfolding incomplete_child_result by_text has_text
answer_is_complete = refl

recover_child_result_ok_example :
    ((recover_child_result cut calm 1000).1 ≡ ok answer) ↔ IsTaken calm context_limit 1000 answer
recover_child_result_ok_example = recover_child_result_ok cut calm 1000 answer cut_is_incomplete

second_reply_is_taken : (recover_child_result cut calm 1000).1 ≡ ok answer
second_reply_is_taken = (recover_child_result_ok cut calm 1000 answer cut_is_incomplete).1 record {
  at_start = refl;
  at_reason = refl;
  compaction = inr (refl, refl);
  reply = refl;
  after_reply = refl;
  complete = answer_is_complete;
}

recover_child_result-IsStartOf_example :
    IsStartOf (recover_child_result cut given_up 1000).0 (protocol context_limit)
recover_child_result-IsStartOf_example =
    recover_child_result-IsStartOf cut given_up 1000 cut_is_incomplete
