-- ===== src/Tools/Profile.antt =====
-- nla-capability-cache.mjs: the tools of a role in the catalogue of OpenCode, and their cache. The
-- hash of a value (SHA-256 of its canonical JSON) is a parameter.
use next_level_agent.Base.{
  ℕ, String, Bool, true, false, not, ◌&&◌, ◌||◌, Option, none, some, List, [], ◌∷◌, map, any,
  select, length, Dict, lookup, insert, ◌==◌, leb, ltb, eqb, if◌then◌else◌,
}
use next_level_agent.Base.Result.{Result, ok, err}
use next_level_agent.Base.Texts.{same_texts, includes}

-- An element of the catalogue: its `id`, if that is a text, and the rest of it.
pub record Item : Type 0 where
  pub id : Option String
  pub content : String

pub record Entry : Type 0 where
  pub key : String
  pub tools : Option (List String)
  pub schema_hashes : Dict (Option String)
  pub nla_version : String
  pub opencode_signature : String
  pub config_signature : String

pub record Cache : Type 0 where
  pub format : ℕ
  pub entries : Dict Entry

abbrev pub cache_format : ℕ
cache_format = 1

-- What `JSON.parse` makes of the stored text; `none` where it throws or an object is missing.
unfoldable pub parse_capability_cache : Option Cache → Cache
parse_capability_cache none = record { format = cache_format; entries = [] }
parse_capability_cache (some c) = record {
  format = cache_format;
  entries = if eqb c.format cache_format then c.entries else [];
}

-- The values that are hashed.
pub data Hashed : Type 0 where
  schema : Item → Hashed
  signature : List String → Dict (Option String) → Hashed
  entry_key : ℕ → String → String → String → String → Hashed

pub data ProfileError : Type 0 where
  invalid_catalog no_safe_policy missing_required profile_size : ProfileError

pub data Origin : Type 0 where
  cache_hit cache_miss : Origin

pub record Profile : Type 0 where
  pub tools : List String
  pub source : Origin
  pub key : String
  pub cache : Cache
  pub opencode_signature : String
  pub schema_hashes : Dict (Option String)

-- The first element with an identifier stays.
unfoldable pub catalog_map : Dict Item → List Item → Dict Item
unfolding lookup insert
catalog_map mapped [] = mapped
catalog_map mapped (item ∷ items) =
    let skipped = catalog_map mapped items in
    elim item.id [
      | none ↦ skipped
      | some id ↦ if id == "" then skipped else elim (lookup id mapped) [
        | some other ↦ skipped
        | none ↦ catalog_map (insert id item mapped) items
      ]
    ]

abbrev pub has : Dict Item → String → Bool
has by_id id = elim (lookup id by_id) [ none ↦ false | some item ↦ true ]

abbrev pub tools_under : String → Option Entry → Option (List String)
tools_under key none = none
tools_under key (some e) = if e.key == key then e.tools else none

-- The cached tools, where they are two to five and just those that are available.
abbrev pub usable : List String → Option (List String) → Option (List String)
usable available none = none
usable available (some tools) =
    if same_texts tools available && leb 2 (length tools) && leb (length tools) 5
    then some tools
    else none

module _ (hash : Hashed → String) where
  abbrev schema_hash : Option Item → Option String
  schema_hash none = none
  schema_hash (some item) = some (hash (schema item))

  abbrev pub hashes : Dict Item → List String → Dict (Option String)
  hashes by_id ceiling = map (λ id. (id, schema_hash (lookup id by_id))) ceiling

  -- What a role's profile is resolved from.
  abbrev pub opencode_of : List String → Dict Item → String
  opencode_of ceiling by_id = hash (signature ceiling (hashes by_id ceiling))

  abbrev pub key_of : String → List String → Dict Item → String → String → String
  key_of role ceiling by_id config version =
      hash (entry_key cache_format version role (opencode_of ceiling by_id) config)

  abbrev pub entry_of : String → List String → List String → Dict Item → String → String → Entry
  entry_of role ceiling available by_id config version = record {
    key = key_of role ceiling by_id config version;
    tools = some available;
    schema_hashes = hashes by_id ceiling;
    nla_version = version;
    opencode_signature = opencode_of ceiling by_id;
    config_signature = config;
  }

  abbrev pub next_cache :
      String → List String → List String → Dict Item → Cache → String → String → Cache
  next_cache role ceiling available by_id cache config version = record {
    format = cache_format;
    entries = insert role (entry_of role ceiling available by_id config version) cache.entries;
  }

  abbrev pub served :
      String
      → List String
      → List String
      → Dict Item
      → Cache
      → String
      → String
      → Option (List String)
      → Profile
  served role ceiling available by_id cache config version none = record {
    tools = available;
    source = cache_miss;
    key = key_of role ceiling by_id config version;
    cache = next_cache role ceiling available by_id cache config version;
    opencode_signature = opencode_of ceiling by_id;
    schema_hashes = hashes by_id ceiling;
  }
  served role ceiling available by_id cache config version (some tools) = record {
    tools = tools;
    source = cache_hit;
    key = key_of role ceiling by_id config version;
    cache = cache;
    opencode_signature = opencode_of ceiling by_id;
    schema_hashes = hashes by_id ceiling;
  }

  abbrev pub cached_tools :
      String
      → List String
      → List String
      → Dict Item
      → Cache
      → String
      → String
      → Option (List String)
  cached_tools role ceiling available by_id cache config version =
      usable available
        (tools_under (key_of role ceiling by_id config version) (lookup role cache.entries))

  -- The part after the checks, for the tools that are available.
  unfoldable pub serve_profile :
      String → List String → List String → Dict Item → Cache → String → String → Profile
  serve_profile role ceiling available by_id cache config version =
      served role ceiling available by_id cache config version
        (cached_tools role ceiling available by_id cache config version)

  unfoldable pub resolve_role_capability_profile :
      String
      → List String
      → List String
      → Option (List Item)
      → Cache
      → String
      → String
      → Result ProfileError Profile
  resolve_role_capability_profile role [] required catalog cache config version = err no_safe_policy
  resolve_role_capability_profile role (c ∷ cs) required none cache config version =
      err invalid_catalog
  resolve_role_capability_profile role (c ∷ cs) required (some catalog) cache config version =
      let by_id = catalog_map [] catalog in
      let available = select (has by_id) (c ∷ cs) in
      if any (λ id. not (includes available id)) required
      then err missing_required
      else if ltb (length available) 2 || ltb 5 (length available)
      then err profile_size
      else ok (serve_profile role (c ∷ cs) available by_id cache config version)
