-- ===== src/Utility/Examples.antt =====
-- The theorems about the utility runtime at concrete inputs.
use next_level_agent.Base.{
  ◌≡◌, refl, String, true, false, none, some, List, [], ◌∷◌, ◌==◌, lookup, insert, erase,
  if◌then◌else◌,
}
use next_level_agent.Health.Classify.{Regexes, abort_text, classify}
use next_level_agent.Health.Manager.{
  Manager, key, state, claim, release, success, failure, candidates, first_time,
}
use next_level_agent.Health.Previous.{new_manager}
use next_level_agent.Utility.Runtime.{
  Turn, answered, rejected, plain_error, replied, run_utility_model,
}
use next_level_agent.Utility.Flights.{NoFlights, run_utility_model-NoFlights}
use next_level_agent.Utility.Answers.{Replies, run_utility_model-Replies}

abbrev some_regexes : Regexes
some_regexes = record {
  matches =
      λ p s. elim p [ abort_text ↦ s == "Utility-model task cancelled by caller" | _ ↦ false ];
  status_in = λ s. if s == "HTTP 503" then some 503 else none;
}

abbrev idle : Manager
idle = new_manager 30000

idle-NoFlights : NoFlights idle.entries
unfolding lookup
idle-NoFlights = record { nowhere = λ j x h. cc }

abbrev failing : Turn
failing = record {
  claimed_at = 1;
  settled_at = 2;
  aborted_before = false;
  aborted_after = false;
  answer = rejected (plain_error "HTTP 503");
}

abbrev answering : Turn
answering = record {
  claimed_at = 3;
  settled_at = 4;
  aborted_before = false;
  aborted_after = false;
  answer = answered "yes";
}

abbrev aborted : Turn
aborted = record {
  claimed_at = 3;
  settled_at = 4;
  aborted_before = false;
  aborted_after = true;
  answer = answered "yes";
}

abbrev turns : List (String × Turn)
turns = ("m1", failing) ∷ ("m2", answering) ∷ []

run_utility_model-NoFlights_example :
    NoFlights (run_utility_model some_regexes idle 0 "e" "timeout" 50 turns).0.entries
run_utility_model-NoFlights_example =
    run_utility_model-NoFlights some_regexes idle 0 "e" "timeout" 50 turns idle-NoFlights

-- The second model answers after the first has failed.
fails_over : (run_utility_model some_regexes idle 0 "e" "timeout" 50 turns).1 ≡ replied "m2" "yes"
unfolding run_utility_model candidates first_time claim state release success failure classify
    lookup insert erase key
fails_over = refl

run_utility_model-Replies_example :
    Replies "e" turns
      (run_utility_model some_regexes idle 0 "e" "timeout" 50 turns).0
      (replied "m2" "yes")
run_utility_model-Replies_example =
    run_utility_model-Replies some_regexes idle 0 "e" "timeout" 50 turns "m2" "yes" fails_over
