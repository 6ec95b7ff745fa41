-- ===== src/Utility/Runtime.antt =====
-- nla-utility-runtime.mjs: `runUtilityModel`, the loop over the models of a pool. What the provider,
-- the timer and the caller do in one attempt is a `Turn`.
use next_level_agent.Base.{
  ℕ, ◌+◌, String, Bool, true, false, Option, none, some, List, [], ◌∷◌, map, leb, length,
  if◌then◌else◌,
}
use next_level_agent.Health.Classify.{
  Category, transient, defective, configuration, Reason, Regexes, ProviderError, classify,
}
use next_level_agent.Health.Manager.{
  Manager, Selection, candidates, claim, release, success, failure,
}

pub data Answer : Type 0 where
  answered : String → Answer
  rejected : ProviderError → Answer
  timed_out : Answer

-- `aborted_before` and `aborted_after`: whether the caller's signal is aborted when the attempt
-- begins, and when its request has settled.
pub record Turn : Type 0 where
  pub claimed_at : ℕ
  pub settled_at : ℕ
  pub aborted_before : Bool
  pub aborted_after : Bool
  pub answer : Answer

pub data Outcome : Type 0 where
  replied : String → String → Outcome
  cancelled : Outcome
  unavailable : Selection → Outcome
  exhausted : Reason → ℕ → Outcome

abbrev pub plain_error : String → ProviderError
plain_error message = record {
  code = "";
  recovery_reason = none;
  name = "Error";
  text = message;
  data_status_code = none;
  data_status = none;
  status_code = none;
  status = none;
  data_retry_after = none;
  data_retry_after_alias = none;
  retry_after = none;
  header_retry_after = none;
}

abbrev pub cancelled_error : ProviderError
cancelled_error = plain_error "Utility-model task cancelled by caller"

-- What the attempt throws, `none` where it returns an answer; an abort comes before the rest.
-- `timeout_text` is the message of the timer, which names the configured time.
abbrev pub error_of : String → Turn → Option ProviderError
error_of timeout_text t = if t.aborted_after then some cancelled_error else elim t.answer [
  | answered o ↦ none
  | rejected e ↦ some e
  | timed_out ↦ some (plain_error timeout_text)
]

abbrev pub output_of : Answer → String
output_of (answered o) = o
output_of _ = ""

abbrev pub tries_next : Category → Bool
tries_next transient = true
tries_next defective = true
tries_next configuration = true
tries_next _ = false

-- classifyProviderError(lastError), where there may be none
abbrev final_error : Option ProviderError → ProviderError
final_error none = plain_error ""
final_error (some e) = e

abbrev pub give_up : Regexes → Option ProviderError → ℕ → Outcome
give_up rx last attempted = exhausted (classify rx (final_error last) 0).reason attempted

-- The health of the model when the `finally` block is done, and whether the loop goes on.
unfoldable pub settle :
    Regexes → String → ℕ → Manager → String → Turn → Option ProviderError → Manager × Bool
settle rx endpoint cooldown m model turn none =
    (release (success m model endpoint) model endpoint, false)
settle rx endpoint cooldown m model turn (some e) =
    let (m', result) = failure rx m turn.settled_at model e endpoint cooldown in
    (release m' model endpoint, tries_next result.category)

abbrev pub finish : Regexes → String → Turn → ℕ → Option ProviderError → Outcome
finish rx model turn attempted none = replied model (output_of turn.answer)
finish rx model turn attempted (some e) = give_up rx (some e) attempted

module _ (rx : Regexes) (endpoint timeout_text : String) (cooldown max_attempts : ℕ) where
  -- The `for` loop from some model on. `break` and `return` end it, `continue` skips a model.
  unfoldable pub try_models :
      Manager → ℕ → Option ProviderError → List (String × Turn) → Manager × Outcome
  unfolding settle
  try_models m attempted last [] = (m, give_up rx last attempted)
  try_models m attempted last ((model, turn) ∷ rest) =
      let (held, claimed) = claim m turn.claimed_at model endpoint in
      let (after, goes_on) =
        settle rx endpoint cooldown held model turn (error_of timeout_text turn) in
      let skipped = try_models m attempted last rest in
      let next = try_models after (attempted + 1) (error_of timeout_text turn) rest in
      if turn.aborted_before
      then (m, cancelled)
      else if leb max_attempts attempted
      then (m, give_up rx last attempted)
      else if claimed
      then (if goes_on
          then next
          else (after, finish rx model turn (attempted + 1) (error_of timeout_text turn)))
      else skipped

abbrev models_of : List (String × Turn) → List String
models_of = map (λ t. t.0)

abbrev pub outcome_unless_empty :
    List String → Selection → Manager → Manager × Outcome → Manager × Outcome
outcome_unless_empty [] selection m result = (m, unavailable selection)
outcome_unless_empty (b ∷ bs) selection m result = result

unfoldable pub run_utility_model :
    Regexes → Manager → ℕ → String → String → ℕ → List (String × Turn) → Manager × Outcome
unfolding try_models
run_utility_model rx m now endpoint timeout_text cooldown turns =
    let selection = candidates m now (models_of turns) (length turns) endpoint in
    let result = try_models rx endpoint timeout_text cooldown (length turns) m 0 none turns in
    outcome_unless_empty selection.models selection m result
