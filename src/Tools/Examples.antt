-- ===== src/Tools/Examples.antt =====
-- The theorems about tool shortlists and profiles at concrete inputs.
use next_level_agent.Base.{
  ◌≡◌, refl, String, true, false, ◌||◌, none, some, List, [], ◌∷◌, ◌==◌, lookup, insert, arith,
}
use next_level_agent.Base.Result.{ok}
use next_level_agent.Base.Texts.{includes, Within}
use next_level_agent.Tools.Roles.{required_role_tools}
use next_level_agent.Tools.Shortlist.{
  Signals, with_tools, replies, Invocation, utility_compactor, deterministic_tool_shortlist,
  optimize_invocation,
}
use next_level_agent.Tools.Bounds.{optimize_invocation-Between}
use next_level_agent.Tools.Profile.{
  Item, Cache, Hashed, Profile, catalog_map, serve_profile, resolve_role_capability_profile,
}

abbrev signals : Signals
signals = record {
  is_blank = λ s. s == "";
  wants_no_tools = λ s. false;
  signal = λ tool s. tool == "grep" || tool == "read";
}

abbrev scout : List String
scout = "webfetch" ∷ "read" ∷ "grep" ∷ []

scout_required : Within (required_role_tools "scout" (some scout)) scout
unfolding required_role_tools
scout_required = (refl, (refl, tt))

shortlisted : deterministic_tool_shortlist signals "scout" "find it" (some scout) ≡ ok scout
unfolding deterministic_tool_shortlist required_role_tools
shortlisted = refl

abbrev optimized : Invocation
optimized = record { prompt = "find it"; tools = scout; source = utility_compactor }

optimized_lem :
    optimize_invocation signals "scout" "find it"
      (some scout)
      true
      (replies (with_tools (some "grep" ∷ some "read" ∷ some "webfetch" ∷ [])))
    ≡ ok optimized
unfolding optimize_invocation required_role_tools
optimized_lem = refl

optimize_invocation-Between_example :
    (fallback : List String) × (deterministic_tool_shortlist signals "scout" "find it" (some scout)
      ≡ ok fallback)
    × Within optimized.tools scout
    × Within fallback optimized.tools
optimize_invocation-Between_example =
    optimize_invocation-Between signals "scout" "find it" scout true
      (replies (with_tools (some "grep" ∷ some "read" ∷ some "webfetch" ∷ []))) (omega arith)
      scout_required optimized_lem

abbrev one_hash : Hashed → String
one_hash h = "hash"

abbrev catalog : List Item
catalog =
    record { id = some "grep"; content = "1" }
    ∷ record { id = none; content = "2" }
    ∷ record { id = some "read"; content = "3" }
    ∷ []

abbrev empty_cache : Cache
empty_cache = record { format = 1; entries = [] }

abbrev resolved : Profile
resolved =
    serve_profile one_hash "scout" scout ("read" ∷ "grep" ∷ []) (catalog_map [] catalog) empty_cache
      "c" "v"

resolved_lem :
    resolve_role_capability_profile one_hash "scout" scout
      ("read" ∷ [])
      (some catalog)
      empty_cache
      "c"
      "v"
    ≡ ok resolved
unfolding resolve_role_capability_profile catalog_map includes lookup insert
resolved_lem = refl
