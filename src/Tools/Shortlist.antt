-- ===== src/Tools/Shortlist.antt =====
-- nla-prompt-optimizer.mjs: the tools of one bounded step. The signals are regular expressions over
-- the prompt, and the reply of the compactor is the JSON value that `JSON.parse` makes of it.
use text.Mathlib.Text.{starts_with}
use next_level_agent.Base.{
  String, Bool, true, false, not, ◌&&◌, ◌||◌, Option, none, some, List, [], ◌∷◌, ◌==◌, any, all,
  select, take, length, lookup, ltb, if◌then◌else◌,
}
use next_level_agent.Base.Result.{Result, ok, err, ◌>>=◌, ◌>>◌, throw_if}
use next_level_agent.Base.Texts.{includes, unique, dedupe}
use next_level_agent.Tools.Roles.{
  tool_free_roles, role_tool_ceilings, edits_code, required_role_tools,
}

pub data ToolError : Type 0 where
  no_tools_array outside_ceiling bad_count omitted_required no_ceiling : ToolError
  invalid_json not_exactly_tools no_policy empty_task no_safe_subset not_iterable : ToolError
  profile_lacks : String → ToolError

-- What the code asks of the prompt: whether it is blank, asks for no tools, or matches the signal
-- of a tool (`none` where the tool has no signal).
pub record Signals : Type 0 where
  pub is_blank : String → Bool
  pub wants_no_tools : String → Bool
  pub signal : String → String → Bool

-- The parsed reply; an element of `tools` that is no text is `none`.
pub data Reply : Type 0 where
  unparsable other_shape without_tools : Reply
  with_tools : List (Option String) → Reply

abbrev all_texts : List (Option String) → Option (List String)
all_texts [] = some []
all_texts (none ∷ xs) = none
all_texts (some x ∷ xs) = elim (all_texts xs) [ none ↦ none | some ys ↦ some (x ∷ ys) ]

unfoldable pub unique_known_tools :
    List String → List String → List String → Result ToolError (List String)
unfolding includes dedupe
unique_known_tools value ceiling required =
    let selected = unique value in
    if not (all (includes ceiling) selected)
    then err outside_ceiling
    else if ltb (length selected) 2 || ltb 5 (length selected)
    then err bad_count
    else if not (all (includes selected) required)
    then err omitted_required
    else ok (select (includes selected) ceiling)

abbrev pub known_texts :
    Option (List String) → List String → List String → Result ToolError (List String)
known_texts none ceiling required = err outside_ceiling
known_texts (some names) ceiling required = unique_known_tools names ceiling required

abbrev pub known_reply : Reply → List String → List String → Result ToolError (List String)
known_reply unparsable ceiling required = err invalid_json
known_reply other_shape ceiling required = err not_exactly_tools
known_reply without_tools ceiling required = err no_tools_array
known_reply (with_tools value) ceiling required = known_texts (all_texts value) ceiling required

-- `required` is `none` where the caller leaves it out.
unfoldable pub parse_compactor_tool_output :
    Reply → String → Option (List String) → Option (List String) → Result ToolError (List String)
unfolding unique_known_tools
parse_compactor_tool_output reply role required none = err no_ceiling
parse_compactor_tool_output reply role none (some ceiling) =
    known_reply reply ceiling (required_role_tools role (some ceiling))
parse_compactor_tool_output reply role (some required) (some ceiling) =
    known_reply reply ceiling required

module _ (signals : Signals) where
  -- The loop over the tools of the role's own ceiling: what each signal adds, or the tool that the
  -- profile lacks.
  unfoldable pub add_signalled :
      String → String → List String → List String → List String → Result ToolError (List String)
  unfolding includes
  add_signalled role prompt ceiling selected [] = ok selected
  add_signalled role prompt ceiling selected (name ∷ names) =
      let skipped = add_signalled role prompt ceiling selected names in
      let patched = add_signalled role prompt ceiling ("apply_patch" ∷ selected) names in
      let added = add_signalled role prompt ceiling (name ∷ selected) names in
      if not (signals.signal name prompt)
      then skipped
      else if edits_code role
          && (name == "edit" || name == "write")
          && includes ceiling "apply_patch"
      then patched
      else if includes ceiling name
      then added
      else err (profile_lacks name)

  -- The loop throws where the role has no ceiling of its own to go over.
  unfoldable pub add_all :
      String → String → List String → Option (List String) → Result ToolError (List String)
  unfolding add_signalled
  add_all role prompt ceiling none = err not_iterable
  add_all role prompt ceiling (some names) =
      add_signalled role prompt ceiling (required_role_tools role (some ceiling)) names

  unfoldable pub shortlist_within : String → String → List String → Result ToolError (List String)
  unfolding add_all
  shortlist_within role prompt ceiling =
      if signals.is_blank prompt
      then err empty_task
      else if signals.wants_no_tools prompt
      then ok []
      else (do
        selected ← add_all role prompt ceiling (lookup role role_tool_ceilings)
        let shortlist = take 5 (select (includes selected) ceiling)
        throw_if (ltb (length shortlist) 2) no_safe_subset
        ok shortlist)

  unfoldable pub deterministic_tool_shortlist :
      String → String → Option (List String) → Result ToolError (List String)
  unfolding includes shortlist_within
  deterministic_tool_shortlist role prompt none =
      if includes tool_free_roles role then ok [] else err no_policy
  deterministic_tool_shortlist role prompt (some ceiling) =
      if includes tool_free_roles role then ok [] else shortlist_within role prompt ceiling

-- `permissions`: every tool denied, then the shortlist allowed.
unfoldable pub tool_permission_map : List String → String → Bool
unfolding includes
tool_permission_map shortlist tool = includes shortlist tool

-- An `exclude_models` entry: a whole binding, or the text in front of a final `*`.
pub data Exclusion : Type 0 where
  exactly prefix : String → Exclusion
  malformed : Exclusion

pub data Enabled : Type 0 where
  left_out not_boolean : Enabled
  given : Bool → Enabled

pub data Policy : Type 0 where
  undefined_policy invalid_policy : Policy
  policy : Enabled → List Exclusion → Policy

pub data PolicyError : Type 0 where
  bad_policy bad_enabled bad_exclusions : PolicyError

abbrev is_malformed : Exclusion → Bool
is_malformed malformed = true
is_malformed _ = false

abbrev excludes : Option String → Exclusion → Bool
excludes none x = false
excludes (some model) (exactly name) = model == name
excludes (some model) (prefix front) = starts_with model front
excludes (some model) malformed = false

abbrev is_on : Enabled → Bool
is_on (given b) = b
is_on _ = true

abbrev is_not_boolean : Enabled → Bool
is_not_boolean not_boolean = true
is_not_boolean _ = false

unfoldable pub compactor_optimization_enabled : Option String → Policy → Result PolicyError Bool
compactor_optimization_enabled model undefined_policy = ok true
compactor_optimization_enabled model invalid_policy = err bad_policy
compactor_optimization_enabled model (policy enabled excluded) =
    if is_not_boolean enabled
    then err bad_enabled
    else if any is_malformed excluded
    then err bad_exclusions
    else ok (is_on enabled && not (any (excludes model) excluded))

pub data Source : Type 0 where
  deterministic_policy tool_free deterministic utility_compactor deterministic_fallback : Source

pub record Invocation : Type 0 where
  pub prompt : String
  pub tools : List String
  pub source : Source

abbrev pub is_empty : List String → Bool
is_empty [] = true
is_empty (x ∷ xs) = false

-- The compactor's part: absent, a call that throws, or its reply.
pub data Compactor : Type 0 where
  no_compactor throws : Compactor
  replies : Reply → Compactor

abbrev pub or_fallback : String → List String → Result ToolError (List String) → Invocation
or_fallback prompt fallback (ok tools) = record {
  prompt = prompt;
  tools = tools;
  source = utility_compactor;
}
or_fallback prompt fallback (err e) = record {
  prompt = prompt;
  tools = fallback;
  source = deterministic_fallback;
}

abbrev pub compacted : String → String → Option (List String) → List String → Compactor → Invocation
compacted role prompt profile fallback no_compactor = record {
  prompt = prompt;
  tools = fallback;
  source = if is_empty fallback then tool_free else deterministic;
}
compacted role prompt profile fallback throws =
    if is_empty fallback
    then record { prompt = prompt; tools = fallback; source = tool_free }
    else record { prompt = prompt; tools = fallback; source = deterministic_fallback }
compacted role prompt profile fallback (replies r) =
    if is_empty fallback
    then record { prompt = prompt; tools = fallback; source = tool_free }
    else or_fallback prompt fallback (parse_compactor_tool_output r role (some fallback) profile)

-- `enabled` is the answer of `compactorOptimizationEnabled`.
unfoldable pub optimize_invocation :
    Signals
    → String
    → String
    → Option (List String)
    → Bool
    → Compactor
    → Result ToolError Invocation
unfolding deterministic_tool_shortlist parse_compactor_tool_output
optimize_invocation signals role prompt profile enabled compactor = do
  fallback ← deterministic_tool_shortlist signals role prompt profile
  ok (
      if enabled then compacted role prompt profile fallback compactor else record {
        prompt = prompt;
        tools = fallback;
        source = if is_empty fallback then tool_free else deterministic_policy;
      })
