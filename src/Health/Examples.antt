-- ===== src/Health/Examples.antt =====
-- The theorems about model health at concrete inputs.
use next_level_agent.Base.{
  ℕ, ◌≡◌, refl, String, true, false, none, some, List, [], ◌∷◌, ◌==◌, lookup, insert, arith,
}
use next_level_agent.Health.Classify.{Regexes, Pattern, abort_text, ProviderError, classify}
use next_level_agent.Health.Manager.{
  Manager, Failure, cooling, quarantined, failed, probe_after, key, state, claim, release, failure,
}
use next_level_agent.Health.Failures.{failure-eligible}
use next_level_agent.Health.Runs.{Call, claims, releases, fails, run, claim-run_blocked}
use next_level_agent.Health.Previous.{new_manager, run-release_eligible}

-- Only the text of a cancellation is matched.
abbrev some_regexes : Regexes
some_regexes = record {
  matches = λ p s. elim p [ abort_text ↦ s == "cancelled by caller" | _ ↦ false ];
  status_in = λ s. none;
}

abbrev http_error : ℕ → ProviderError
http_error s = record {
  code = "";
  recovery_reason = none;
  name = "Error";
  text = "failed";
  data_status_code = none;
  data_status = none;
  status_code = some s;
  status = none;
  data_retry_after = none;
  data_retry_after_alias = none;
  retry_after = none;
  header_retry_after = none;
}

abbrev idle : Manager
idle = new_manager 30000

abbrev a_model : String
a_model = "zen/model-a"

failure-eligible_example :
    (state
      (failure some_regexes idle 7 a_model (http_error 503) "" 30000).0
      20000
      a_model
      "").eligible
    ≡ false
unfolding classify
failure-eligible_example =
    failure-eligible some_regexes idle 7 20000 a_model (http_error 503) "" 30000

abbrev stopped : Failure
stopped = record {
  down = quarantined;
  category = next_level_agent.Health.Classify.configuration;
  reason = next_level_agent.Health.Classify.provider_authorization_failed;
  since = 7;
  until = none;
}

abbrev stopped_manager : Manager
stopped_manager = record { entries = (key a_model "", failed stopped) ∷ []; cooldown = 30000 }

abbrev other_calls : List (ℕ × Call)
other_calls = (8, claims a_model "") ∷ (9, releases a_model "") ∷ []

stopped_here : lookup (key a_model "") stopped_manager.entries ≡ some (failed stopped)
unfolding lookup key
stopped_here = refl

claim-run_blocked_example :
    claim (run some_regexes stopped_manager other_calls) 100000 a_model ""
    ≡ (run some_regexes stopped_manager other_calls, false)
claim-run_blocked_example =
    claim-run_blocked some_regexes stopped_manager a_model "" (failed stopped) other_calls 100000
      stopped_here refl (refl, (refl, tt))

abbrev retried : List (ℕ × Call)
retried =
    (0, claims a_model "")
    ∷ (1, fails a_model (http_error 503) "" 10)
    ∷ (20, claims a_model "")
    ∷ []

abbrev cooled : Failure
cooled = record {
  down = cooling;
  category = next_level_agent.Health.Classify.transient;
  reason = next_level_agent.Health.Classify.provider_http 503;
  since = 1;
  until = some 11;
}

retried_in_flight :
    lookup (key a_model "") (run some_regexes idle retried).entries ≡ some (probe_after 20 cooled)
unfolding run claim state failure classify lookup insert key
retried_in_flight = refl

run-release_eligible_example :
    (state (release (run some_regexes idle retried) a_model "") 21 a_model "").eligible ≡ true
run-release_eligible_example =
    run-release_eligible some_regexes 30000 retried a_model "" 20 21 cooled retried_in_flight
      (omega arith)
