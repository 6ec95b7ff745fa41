-- ===== src/Utility/Config.antt =====
-- nla-utility-runtime.mjs: `utilityConfig`, `configuredUtilityPool` and `requestFor`. Fields of the
-- wrong type that the code treats as absent are absent here.
use next_level_agent.Base.{
  ℕ, suc, String, Bool, true, false, not, ◌&&◌, ◌||◌, Option, none, some, List, [], ◌∷◌, ◌==◌, leb,
  ltb, any, select, length, if◌then◌else◌,
}
use next_level_agent.Base.Result.{Result, ok, err, ◌>>=◌, ◌>>◌, throw_if}
use next_level_agent.Health.Classify.{Setting, absent, invalid, valid}

pub record Provider : Type 0 where
  pub api : String
  pub base_url : Option String

pub record Pool : Type 0 where
  pub enabled : Bool
  pub runtime : String
  pub backend : String
  pub provider : Provider
  pub models : List String
  pub request_timeout_ms : Setting
  pub output_format : String
  pub reasoning_effort : Option String
  pub max_output_tokens : Setting

pub data ConfigError : Type 0 where
  unsupported_backend unsupported_api backend_needs_openai_api base_url_required : ConfigError
  invalid_url base_url_scheme timeout_not_positive no_models : ConfigError
  invalid_reasoning_effort invalid_max_output_tokens : ConfigError

pub data OutputFormat : Type 0 where
  json text : OutputFormat

pub record Config : Type 0 where
  pub api : String
  pub backend : String
  pub base_url : String
  pub models : List String
  pub timeout_ms : ℕ
  pub output_format : OutputFormat
  pub reasoning_effort : Option String
  pub max_output_tokens : Option ℕ

-- What the code uses of the platform: `String.prototype.trim` being empty, and `new URL`'s protocol
-- (`none` where the constructor throws).
pub record Platform : Type 0 where
  pub is_blank : String → Bool
  pub protocol_of : String → Option String

unfoldable pub one_of : List String → String → Bool
one_of names s = any (λ n. n == s) names

unfoldable pub check_timeout : Setting → Result ConfigError ℕ
check_timeout (valid (suc n)) = ok (suc n)
check_timeout _ = err timeout_not_positive

unfoldable pub check_effort : Option String → Result ConfigError (Option String)
unfolding one_of
check_effort none = ok none
check_effort (some e) =
    if one_of ("none" ∷ "low" ∷ "medium" ∷ "high" ∷ []) e
    then ok (some e)
    else err invalid_reasoning_effort

unfoldable pub check_max_tokens : Setting → Result ConfigError (Option ℕ)
check_max_tokens absent = ok none
check_max_tokens invalid = err invalid_max_output_tokens
check_max_tokens (valid n) =
    if leb n 0 || ltb 4096 n then err invalid_max_output_tokens else ok (some n)

unfoldable pub check_base_url : Platform → Option String → Result ConfigError String
check_base_url platform none = err base_url_required
check_base_url platform (some url) =
    if url == "" then err base_url_required else elim (platform.protocol_of url) [
      | none ↦ err invalid_url
      | some p ↦ if p == "http:" || p == "https:" then ok url else err base_url_scheme
    ]

unfoldable pub check_pool : Platform → Pool → Result ConfigError Config
unfolding one_of check_timeout check_effort check_max_tokens check_base_url
check_pool platform pool = do
  throw_if (not (one_of ("ollama" ∷ "openai-compatible" ∷ []) pool.backend)) unsupported_backend
  throw_if (not (one_of ("native" ∷ "openai-compatible" ∷ []) pool.provider.api)) unsupported_api
  throw_if (pool.backend == "openai-compatible" && not (pool.provider.api == "openai-compatible"))
      backend_needs_openai_api
  url ← check_base_url platform pool.provider.base_url
  timeout ← check_timeout pool.request_timeout_ms
  let models = select (λ m. not (platform.is_blank m)) pool.models
  throw_if (leb (length models) 0) no_models
  effort ← check_effort pool.reasoning_effort
  tokens ← check_max_tokens pool.max_output_tokens
  ok (record {
    api = pool.provider.api;
    backend = pool.backend;
    base_url = url;
    models = models;
    timeout_ms = timeout;
    output_format = if pool.output_format == "json" then json else text;
    reasoning_effort = effort;
    max_output_tokens = tokens;
  })

-- `none` where the pool is not one for the utility runtime.
unfoldable pub utility_config : Platform → Pool → Result ConfigError (Option Config)
unfolding check_pool
utility_config platform pool =
    if pool.runtime == "utility"
    then (do config ← check_pool platform pool; ok (some config))
    else ok none

abbrev is_config : Result ConfigError (Option Config) → Bool
is_config (ok (some c)) = true
is_config _ = false

unfoldable pub configured_utility_pool : Platform → Pool → Bool
unfolding utility_config
configured_utility_pool platform pool = pool.enabled && is_config (utility_config platform pool)

-- The body of a request; `think` and `format` are Ollama's, the rest of the compatible interface.
pub record Request : Type 0 where
  pub suffix : String
  pub model : String
  pub prompt : String
  pub think : Bool
  pub format_json : Bool
  pub response_format_json : Bool
  pub reasoning_effort : Option String
  pub max_tokens : Option ℕ

abbrev is_json : OutputFormat → Bool
is_json json = true
is_json text = false

unfoldable pub request_for : Config → String → String → Request
request_for c model prompt =
    if c.api == "native"
    then record {
      suffix = "api/chat";
      model = model;
      prompt = prompt;
      think = true;
      format_json = is_json c.output_format;
      response_format_json = false;
      reasoning_effort = none;
      max_tokens = none;
    }
    else record {
      suffix = "v1/chat/completions";
      model = model;
      prompt = prompt;
      think = false;
      format_json = false;
      response_format_json = is_json c.output_format;
      reasoning_effort = c.reasoning_effort;
      max_tokens = c.max_output_tokens;
    }
