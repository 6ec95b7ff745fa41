-- ===== src/Tools/Roles.antt =====
-- nla-prompt-optimizer.mjs: the tools that a role may have at most, and must have.
use next_level_agent.Base.{
  String, Bool, false, ◌&&◌, ◌||◌, Option, none, some, List, [], ◌∷◌, Dict, lookup, ◌==◌,
  if◌then◌else◌,
}
use next_level_agent.Base.Texts.{includes}

abbrev pub tool_free_roles : List String
tool_free_roles = "router" ∷ "supervisor" ∷ "architect" ∷ "compactor" ∷ []

abbrev browser_tools : List String
browser_tools =
    "nla_browser_session" ∷ "nla_browser_observe" ∷ "nla_browser_action" ∷ "nla_browser_check" ∷ []

abbrev pub role_tool_ceilings : Dict (List String)
role_tool_ceilings =
    ("scout", "webfetch" ∷ "read" ∷ "grep" ∷ [])
    ∷ ("explorer", "read" ∷ "grep" ∷ "glob" ∷ [])
    ∷ ("planner", "read" ∷ "grep" ∷ "glob" ∷ [])
    ∷ ("implementer", "read" ∷ "grep" ∷ "edit" ∷ "write" ∷ "bash" ∷ [])
    ∷ ("test_writer", "read" ∷ "grep" ∷ "edit" ∷ "write" ∷ "bash" ∷ [])
    ∷ ("reviewer", "read" ∷ "grep" ∷ "glob" ∷ "bash" ∷ [])
    ∷ ("browser", browser_tools)
    ∷ []

abbrev pub required_by_role : Dict (List String)
required_by_role =
    ("scout", "webfetch" ∷ "read" ∷ [])
    ∷ ("explorer", "read" ∷ "grep" ∷ [])
    ∷ ("planner", "read" ∷ "grep" ∷ [])
    ∷ ("implementer", "read" ∷ "edit" ∷ [])
    ∷ ("test_writer", "read" ∷ "edit" ∷ [])
    ∷ ("reviewer", "read" ∷ "grep" ∷ [])
    ∷ ("browser", browser_tools)
    ∷ []

abbrev pub edits_code : String → Bool
edits_code role = role == "implementer" || role == "test_writer"

unfoldable pub role_is_tool_free : String → Bool
unfolding includes
role_is_tool_free role = includes tool_free_roles role

-- The catalogue of OpenCode, by its tool identifiers; `none` where it is no array.
unfoldable pub role_capability_ceiling : String → Option (List String) → Option (List String)
unfolding includes lookup
role_capability_ceiling role none = lookup role role_tool_ceilings
role_capability_ceiling role (some catalog) =
    if edits_code role && includes catalog "apply_patch"
    then some ("read" ∷ "grep" ∷ "apply_patch" ∷ "bash" ∷ [])
    else lookup role role_tool_ceilings

abbrev profile_includes : Option (List String) → String → Bool
profile_includes none tool = false
profile_includes (some profile) tool = includes profile tool

abbrev pub or_empty : Option (List String) → List String
or_empty none = []
or_empty (some tools) = tools

unfoldable pub required_role_tools : String → Option (List String) → List String
unfolding includes lookup
required_role_tools role profile =
    if edits_code role && profile_includes profile "apply_patch"
    then "read" ∷ "apply_patch" ∷ []
    else or_empty (lookup role required_by_role)
