-- ===== src/System/Preferences.antt =====
-- nla-system-database.mjs: the preferences of a role in an orchestra.
use Prim.Native.String.{◌++◌ as text_append}
use next_level_agent.Base.{String, not, Option, none, some, ◌==◌, insert, erase, if◌then◌else◌}
use next_level_agent.Base.Result.{Result, ok, err, ◌>>◌, throw_if}
use next_level_agent.System.Names.{SystemError, failed, Host, is_identifier, valid_orchestra_name}
use next_level_agent.System.Json.{Json, null, object}
use next_level_agent.System.Settings.{validate_setting, get_system_setting, is_policy, field_of}
use next_level_agent.System.Tables.{Database}
use next_level_agent.System.Database.{Outcome, writing, checked, and_then}

-- `routing.selection_policy.${scope}` and `routing.selection_preferences.${scope}`
unfoldable pub scope_of : String → String → String
scope_of role orchestra =
    if orchestra == "go" then role else text_append orchestra (text_append "." role)

abbrev pub policy_key : String → String
policy_key scope = text_append "routing.selection_policy." scope

abbrev pub preferences_key : String → String
preferences_key scope = text_append "routing.selection_preferences." scope

-- The tests of the role and of the orchestra
unfoldable pub valid_target : String → String → Result SystemError String
unfolding is_identifier valid_orchestra_name
valid_target role orchestra =
    throw_if (not (is_identifier role)) (failed "Invalid role name")
    >> valid_orchestra_name orchestra

policy_or_none : Option Json → Result SystemError (Option Json)
unfolding is_policy
policy_or_none none = ok none
policy_or_none (some null) = ok none
policy_or_none (some value) =
    if is_policy value then ok (some value) else err (failed "Invalid stored selection policy")

unfoldable configured_selection_policy : Host → Database → String → String → Outcome (Option Json)
unfolding valid_target scope_of checked and_then get_system_setting policy_or_none
configured_selection_policy host db role orchestra =
    checked db (valid_target role orchestra) λ valid.
      and_then (get_system_setting host db (policy_key (scope_of role orchestra)))
        λ after value. (after, policy_or_none value)

-- The preferences of a role: no minimum where only a policy was saved.
pub record Preferences : Type 0 where
  pub selection_policy : Json
  pub minimum_score : Option Json

-- value.key
unfoldable pub property : String → Json → Json
unfolding field_of
property key (object fields) = field_of key fields
property key _ = null

-- a ?? b
or_else : Option Json → Json → Json
or_else none b = b
or_else (some null) b = b
or_else (some a) b = a

unfoldable pub effective : Option Json → Option Json → Option Preferences
unfolding or_else property
effective none none = none
effective none (some policy) = some record { selection_policy = policy; minimum_score = none }
effective (some saved) legacy = some record {
  selection_policy = or_else legacy (property "selection_policy" saved);
  minimum_score = some (property "minimum_score" saved);
}

unfoldable pub configured_selection_preferences :
    Host → Database → String → String → Outcome (Option Preferences)
unfolding valid_target scope_of checked and_then get_system_setting effective
configured_selection_preferences host db role orchestra =
    checked db (valid_target role orchestra) λ valid.
      let scope = scope_of role orchestra in
      and_then (get_system_setting host db (preferences_key scope)) λ after saved.
        and_then (get_system_setting host after (policy_key scope))
          λ last legacy. (last, ok (effective saved legacy))

-- A policy that was saved alone is removed.
unfoldable pub with_preferences : String → Json → Database → Database
unfolding insert erase
with_preferences scope preferences db = record db {
  settings = erase (policy_key scope) (insert (preferences_key scope) preferences db.settings);
}

unfoldable pub save_selection_preferences : Host → Database → String → String → Json → Outcome Json
unfolding valid_target scope_of checked validate_setting writing with_preferences
save_selection_preferences host db role orchestra preferences =
    checked db (valid_target role orchestra) λ valid.
      let scope = scope_of role orchestra in
      checked db (validate_setting host (preferences_key scope) preferences) λ accepted.
        writing db λ migrated. ok (with_preferences scope preferences migrated, preferences)
