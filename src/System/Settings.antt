-- ===== src/System/Settings.antt =====
-- nla-system-database.mjs: the settings, their keys and values.
use Prim.Native.Char.{code}
use next_level_agent.Base.{
  ℕ, String, Bool, true, false, ◌&&◌, ◌||◌, not, Option, none, some, List, [], ◌∷◌, leb, ltb, eqb,
  ◌==◌, lookup, insert, if◌then◌else◌,
}
use next_level_agent.Base.Result.{Result, ok, err, ◌>>=◌, ◌>>◌, throw_if}
use next_level_agent.Base.Texts.{includes}
use next_level_agent.Pools.Binding.{character_count}
use next_level_agent.System.Names.{SystemError, failed, Host, is_setting_key}
use next_level_agent.System.Json.{
  Json, null, boolean, number, text, object, Members, no_members, member, assert_no_secrets,
}
use next_level_agent.System.Tables.{Database}
use next_level_agent.System.Database.{Outcome, reading, writing, checked, and_then}

unfoldable pub setting_key : Host → String → Result SystemError String
unfolding is_setting_key
setting_key host key =
    throw_if (not (is_setting_key key))
      (failed "Setting key must use lowercase letters, digits, dot, dash, or underscore")
    >> throw_if (host.is_secret_key key) (failed "System settings cannot store secrets")
    >> ok key

-- What stands behind `prefix`, where the text starts with it.
unfoldable behind : String → String → Option String
behind String.[] s = some s
behind (String.◌∷◌ c prefix) String.[] = none
behind (String.◌∷◌ c prefix) (String.◌∷◌ d s) =
    let rest = behind prefix s in if eqb (code c) (code d) then rest else none

-- The scope of a role: /^[a-z][a-z0-9_-]*(?:\.[a-z][a-z0-9_]*)?$/
is_lower : ℕ → Bool
is_lower c = leb b'a' c && leb c b'z'

is_scope_character : ℕ → Bool
unfolding is_lower
is_scope_character c = is_lower c || (leb b'0' c && leb c b'9') || eqb c b'_'

rest_is_role : String → Bool
unfolding is_scope_character
rest_is_role String.[] = true
rest_is_role (String.◌∷◌ c s) = is_scope_character (code c) && rest_is_role s

starts_role : String → Bool
unfolding rest_is_role is_lower
starts_role String.[] = false
starts_role (String.◌∷◌ c s) = is_lower (code c) && rest_is_role s

rest_is_scope : String → Bool
unfolding starts_role is_scope_character
rest_is_scope String.[] = true
rest_is_scope (String.◌∷◌ c s) =
    let rest = rest_is_scope s in
    if eqb (code c) b'.'
    then starts_role s
    else (is_scope_character (code c) || eqb (code c) b'-') && rest

unfoldable is_scope : String → Bool
unfolding rest_is_scope is_lower
is_scope String.[] = false
is_scope (String.◌∷◌ c s) = is_lower (code c) && rest_is_scope s

starts_scope : Option String → Bool
unfolding is_scope
starts_scope none = false
starts_scope (some s) = is_scope s

abbrev policies : List String
policies = "quality" ∷ "balanced" ∷ "cost" ∷ "local" ∷ "free" ∷ []

-- SELECT_POLICIES.has(value)
unfoldable pub is_policy : Json → Bool
unfolding includes
is_policy (text s) = includes policies s
is_policy _ = false

-- A number from 0 to 10
is_score : Json → Bool
is_score (number n) = leb n 1000
is_score _ = false

-- The names of the fields of an object, and the value of one.
field_names : Members → List String
field_names no_members = []
field_names (member key value rest) = key ∷ field_names rest

unfoldable pub field_of : String → Members → Json
field_of key no_members = null
field_of key (member k value rest) = if k == key then value else field_of key rest

-- Its keys, sorted, are minimum_score and selection_policy.
has_preference_fields : List String → Bool
has_preference_fields (a ∷ (b ∷ [])) =
    (a == "minimum_score" && b == "selection_policy")
    || (a == "selection_policy" && b == "minimum_score")
has_preference_fields _ = false

unfoldable is_preferences : Json → Bool
unfolding field_names has_preference_fields is_policy is_score field_of
is_preferences (object fields) =
    has_preference_fields (field_names fields)
    && is_policy (field_of "selection_policy" fields)
    && is_score (field_of "minimum_score" fields)
is_preferences _ = false

is_boolean : Json → Bool
is_boolean (boolean b) = true
is_boolean _ = false

is_given : Option String → Bool
is_given none = false
is_given (some s) = true

unfoldable pub validate_setting : Host → String → Json → Result SystemError (Unit {0})
unfolding setting_key behind starts_scope is_boolean is_policy is_preferences is_given
validate_setting host key value = setting_key host key >>= λ valid.
    if key == "operator_databases.enabled"
    then throw_if (not (is_boolean value)) (failed "setting must be true or false")
    else if starts_scope (behind "routing.selection_policy." key)
    then throw_if (not (is_policy value))
        (failed "setting must be quality, balanced, cost, local, or free")
    else if starts_scope (behind "routing.selection_preferences." key)
    then throw_if (not (is_preferences value))
        (failed "setting requires selection_policy and minimum_score (0–10)")
    else if is_given (behind "operator." key)
    then ok tt
    else err (failed "Setting is read-only or unsupported")

-- `getSystemSetting`; the time of the update is left out.
unfoldable pub get_system_setting : Host → Database → String → Outcome (Option Json)
unfolding reading setting_key lookup
get_system_setting host db key =
    reading db λ migrated. setting_key host key >>= λ valid. ok (lookup valid migrated.settings)

-- `json`: `parse` is `JSON.parse`, and none where it throws.
unfoldable pub json : Host → (String → Option Json) → String → Result SystemError Json
unfolding assert_no_secrets character_count
json host parse value =
    if host.trim value == "" || ltb 16384 (character_count value)
    then err (failed "value must be non-empty JSON")
    else elim (parse value) [
      | none ↦ err (failed "value must be valid JSON")
      | some parsed ↦ assert_no_secrets host 25 parsed >> ok parsed
    ]

unfoldable set_system_setting :
    Host → (String → Option Json) → Database → String → String → Outcome (Option Json)
unfolding json validate_setting checked and_then writing insert get_system_setting
set_system_setting host parse db key value_json = checked db (json host parse value_json) λ value.
    checked db (validate_setting host key value) λ valid.
      and_then
        (writing db
          λ migrated. ok (record migrated { settings = insert key value migrated.settings }, tt))
        λ after done. get_system_setting host after key
