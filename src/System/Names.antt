-- ===== src/System/Names.antt =====
-- nla-system-database.mjs: its errors and the formats of names. What the file uses that is not code of
-- the repository, free-text patterns, `trim` and `JSON.parse`, is a `Host`.
use next_level_agent.Base.{
  ℕ, String, Bool, false, ◌&&◌, ◌||◌, not, Option, none, some, List, [], ◌∷◌, all, any, length, leb,
  ltb, eqb, ◌==◌, if◌then◌else◌,
}
use next_level_agent.Base.Result.{Result, ok, err}
use next_level_agent.Evaluations.Scores.{EvaluationError}
use next_level_agent.Pools.Binding.{Fault, split_slash, parse_model_binding, character_count}
use next_level_agent.Recovery.Ids.{codes, safe_session}

-- A `SystemDatabaseError` by its message, without what is filled in, or an error of another module.
pub data SystemError : Type 0 where
  failed : String → SystemError
  of_pools : Fault → SystemError
  of_evaluations : EvaluationError → SystemError

-- SECRET_PATTERN and SECRET_KEY, which are searched for in free text; `trim` of JavaScript; the test of a
-- role in the pools, /^[a-z][a-z0-9_-]*$/.
pub record Host : Type 0 where
  pub has_secret : String → Bool
  pub is_secret_key : String → Bool
  pub trim : String → String
  pub is_role_id : String → Bool

is_lower : ℕ → Bool
is_lower c = leb b'a' c && leb c b'z'

is_digit : ℕ → Bool
is_digit c = leb b'0' c && leb c b'9'

-- /^[first][rest]{0,limit}$/
named : (ℕ → Bool) → (ℕ → Bool) → ℕ → List ℕ → Bool
named first rest limit [] = false
named first rest limit (c ∷ cs) = first c && all rest cs && leb (length cs) limit

lower_or : List ℕ → ℕ → Bool
unfolding is_lower is_digit
lower_or extra c = is_lower c || is_digit c || any (eqb c) extra

letter_or_digit : ℕ → Bool
unfolding is_lower is_digit
letter_or_digit c = is_lower c || is_digit c || (leb b'A' c && leb c b'Z')

-- IDENTIFIER = /^[a-z][a-z0-9_]{0,63}$/
unfoldable pub is_identifier : String → Bool
unfolding named lower_or is_lower
is_identifier s = named is_lower (lower_or (b'_' ∷ [])) 63 (codes s)

-- ORCHESTRA_NAME = /^[a-z][a-z0-9_-]{0,63}$/
unfoldable pub is_orchestra_name : String → Bool
unfolding named lower_or is_lower
is_orchestra_name s = named is_lower (lower_or (b'_' ∷ b'-' ∷ [])) 63 (codes s)

-- PROVIDER_ID = /^[A-Za-z0-9][A-Za-z0-9._:-]{0,127}$/
unfoldable is_provider_id : String → Bool
unfolding named letter_or_digit
is_provider_id s =
    named letter_or_digit (λ c. letter_or_digit c || any (eqb c) (b'.' ∷ b'_' ∷ b':' ∷ b'-' ∷ []))
      127 (codes s)

-- /^[a-z][a-z0-9_.-]{0,127}$/
unfoldable pub is_setting_key : String → Bool
unfolding named lower_or is_lower
is_setting_key s = named is_lower (lower_or (b'_' ∷ b'.' ∷ b'-' ∷ [])) 127 (codes s)

-- What another module throws, passed on.
unfoldable pub pool_result : {A : Type 0} → Result Fault A → Result SystemError A
pool_result (ok a) = ok a
pool_result (err e) = err (of_pools e)

unfoldable pub evaluation_result : {A : Type 0} → Result EvaluationError A → Result SystemError A
evaluation_result (ok a) = ok a
evaluation_result (err e) = err (of_evaluations e)

unfoldable pub valid_binding : String → Result SystemError String
unfolding parse_model_binding
valid_binding binding = elim (parse_model_binding binding) [
  | ok parsed ↦ ok parsed.binding
  | err e ↦ err (failed "Model binding must be an exact provider/model identifier")
]

unfoldable pub valid_session_id : String → Result SystemError String
unfolding safe_session
valid_session_id s = if safe_session s then ok s else err (failed "Invalid NLA session identifier")

unfoldable pub valid_orchestra_name : String → Result SystemError String
unfolding is_orchestra_name
valid_orchestra_name s =
    if is_orchestra_name s
    then ok s
    else err (failed "Orchestra name must be a lowercase identifier (up to 64 characters)")

unfoldable pub valid_provider_id : String → Result SystemError String
unfolding is_provider_id
valid_provider_id s =
    if is_provider_id s then ok s else err (failed "Provider must be an exact provider ID")

-- substr(binding, 1, instr(binding, '/') - 1), where instr(binding, '/') > 1
unfoldable pub provider_of : String → Option String
unfolding split_slash
provider_of binding = elim (split_slash binding) [
  | [] ↦ none
  | first ∷ rest ↦ elim rest [
    | [] ↦ none
    | next ∷ others ↦ if first == "" then none else some first
  ]
]

-- A text that is not blank, of at most `limit` characters, and without a secret.
unfoldable pub is_free_text : Host → ℕ → String → Bool
unfolding character_count
is_free_text host limit s =
    not (host.trim s == "" || ltb limit (character_count s) || host.has_secret s)
