-- ===== src/Health/Classify.antt =====
-- nla-model-health.mjs: classification of provider errors, cooldowns and Retry-After values.
-- The regular expressions are the tests of a parameter; statuses are numbers where they are given.
use next_level_agent.Base.{
  ℕ, zero, suc, ◌-◌, ◌*◌, String, Bool, false, ◌||◌, Option, none, some, [], ◌∷◌, ◌==◌, eqb, any,
  if◌then◌else◌,
}
use next_level_agent.Base.Order.{◌or_else◌}

pub data Category : Type 0 where
  incomplete non_provider defective configuration transient unknown : Category

pub data Reason : Type 0 where
  child : String → Reason
  caller_or_application_error provider_message_validation_failed : Reason
  model_binding_unavailable provider_endpoint_not_found : Reason
  provider_route_temporarily_restricted provider_authorization_failed : Reason
  provider_http : ℕ → Reason
  provider_transient_failure unknown_provider_failure : Reason

-- The regular expressions that the classification tests the lower-cased text with.
pub data Pattern : Type 0 where
  abort_text no_user_query model_gone free_tier auth_text transient_text : Pattern

-- `RegExp.test` of each pattern, and the status that the last pattern finds in the text.
pub record Regexes : Type 0 where
  pub matches : Pattern → String → Bool
  pub status_in : String → Option ℕ

-- A Retry-After value: blank, a number of seconds, a date in milliseconds, or neither.
pub data RetryAfter : Type 0 where
  blank negative unreadable : RetryAfter
  seconds date : ℕ → RetryAfter

pub record ProviderError : Type 0 where
  pub code : String
  pub recovery_reason : Option String
  pub name : String
  pub text : String
  pub data_status_code : Option ℕ
  pub data_status : Option ℕ
  pub status_code : Option ℕ
  pub status : Option ℕ
  pub data_retry_after : Option RetryAfter
  pub data_retry_after_alias : Option RetryAfter
  pub retry_after : Option RetryAfter
  pub header_retry_after : Option RetryAfter

pub record Classification : Type 0 where
  pub category : Category
  pub reason : Reason
  pub retry_ms : Option ℕ

abbrev pub default_cooldown_ms : ℕ
default_cooldown_ms = 30000

-- A configured cooldown: absent, a number that is finite and not negative, or any other value.
pub data Setting : Type 0 where
  absent invalid : Setting
  valid : ℕ → Setting

unfoldable pub model_cooldown_ms : Setting → Setting → ℕ
model_cooldown_ms (valid n) env = n
model_cooldown_ms invalid env = default_cooldown_ms
model_cooldown_ms absent (valid n) = n
model_cooldown_ms absent env = default_cooldown_ms

unfoldable pub retry_after_ms : Option RetryAfter → ℕ → Option ℕ
retry_after_ms none now = none
retry_after_ms (some blank) now = none
retry_after_ms (some (seconds s)) now = some (s * 1000)
retry_after_ms (some negative) now = none
retry_after_ms (some (date d)) now = some (d - now)
retry_after_ms (some unreadable) now = none

abbrev pub is_status : ℕ → Option ℕ → Bool
is_status n none = false
is_status n (some s) = eqb s n

abbrev http_reason : Option ℕ → Reason
http_reason none = provider_transient_failure
http_reason (some zero) = provider_transient_failure
http_reason (some (suc s)) = provider_http (suc s)

-- error.recoveryReason || 'incomplete'
abbrev recovery_or_default : Option String → String
recovery_or_default none = "incomplete"
recovery_or_default (some r) = if r == "" then "incomplete" else r

abbrev verdict : Category → Reason → Option ℕ → Classification
verdict c r ms = record { category = c; reason = r; retry_ms = ms }

unfoldable pub status_of : Regexes → ProviderError → Option ℕ
status_of rx e =
    e.data_status_code
    or_else e.data_status
    or_else e.status_code
    or_else e.status
    or_else rx.status_in e.text

unfoldable pub retry_of : ProviderError → ℕ → Option ℕ
unfolding retry_after_ms
retry_of e now =
    retry_after_ms
      (e.data_retry_after or_else e.data_retry_after_alias or_else e.retry_after
        or_else e.header_retry_after)
      now

-- `classifyProviderError`, test by test.
unfoldable pub classify : Regexes → ProviderError → ℕ → Classification
unfolding status_of retry_of
classify rx e now =
    let status = status_of rx e in
    let test = λ (p : Pattern). rx.matches p e.text in
    if e.code == "NLA_CHILD_INCOMPLETE"
    then verdict incomplete (child (recovery_or_default e.recovery_reason)) (some 0)
    else if e.name == "AbortError" || test abort_text
    then verdict non_provider caller_or_application_error (some 0)
    else if test no_user_query
    then verdict defective provider_message_validation_failed (some 0)
    else if is_status 410 status || test model_gone
    then verdict defective model_binding_unavailable (some 0)
    else if is_status 404 status
    then verdict configuration provider_endpoint_not_found (some 0)
    else if test free_tier
    then verdict transient provider_route_temporarily_restricted (retry_of e now)
    else if is_status 401 status || is_status 403 status || test auth_text
    then verdict configuration provider_authorization_failed (some 0)
    else if is_status 429 status
        || test transient_text
        || any (λ n. is_status n status) (500 ∷ 502 ∷ 503 ∷ 504 ∷ [])
    then verdict transient (http_reason status) (retry_of e now)
    else if test abort_text
    then verdict non_provider caller_or_application_error (some 0)
    else verdict unknown unknown_provider_failure (some 0)
