-- ===== src/System/Orchestras.antt =====
-- nla-system-database.mjs: the orchestras, named configurations of roles, of which one is active.
use next_level_agent.System.Database.{exists_in}
use next_level_agent.Base.{
  ℕ, String, Bool, true, false, not, Option, none, some, List, [], ◌∷◌, map, any, ltb, eqb, length,
  ◌==◌, Dict, lookup, insert, if◌then◌else◌,
}
use next_level_agent.Base.Result.{Result, ok, ◌>>=◌, ◌>>◌, throw_if}
use next_level_agent.Pools.Binding.{character_count}
use next_level_agent.Pools.File.{RawPool, listed, validate_model_pools}
use next_level_agent.Pools.Loaded.{normalize_auto_pool}
use next_level_agent.Base.Order.{sort_by}
use next_level_agent.Base.TextOrder.{text_le}
use next_level_agent.System.Names.{SystemError, failed, Host, pool_result, valid_orchestra_name}
use next_level_agent.System.Json.{Json, assert_no_secrets}
use next_level_agent.System.Tables.{Database, Config, OrchestraRow}
use next_level_agent.System.Database.{Outcome, reading, writing, checked, insert_or_ignore, update}

-- `JSON.stringify`, as a value and as the length of its text.
pub record Serial : Type 0 where
  pub as_json : Config → Json
  pub json_length : Json → ℕ

-- A configuration that passes the tests of types.
pub record RawConfig : Type 0 where
  pub version : Option ℕ
  pub guidance : Option String
  pub roles : Dict RawPool

unfoldable pub is_other_version : Option ℕ → Bool
is_other_version none = false
is_other_version (some v) = not (eqb v 1)

unfoldable pub is_long : Option String → Bool
unfolding character_count
is_long none = false
is_long (some s) = ltb 1000 (character_count s)

-- An empty guidance is dropped.
unfoldable pub given_guidance : Option String → Option String
given_guidance none = none
given_guidance (some s) = if s == "" then none else some s

unfoldable pub normalize_pools : Dict RawPool → Dict RawPool
unfolding normalize_auto_pool
normalize_pools [] = []
normalize_pools ((role, pool) ∷ rest) = (role, normalize_auto_pool pool) ∷ normalize_pools rest

unfoldable pub normalized : RawConfig → Config
unfolding normalize_pools given_guidance
normalized raw = record {
  roles = normalize_pools raw.roles;
  guidance = given_guidance raw.guidance;
}

required_roles : List String
required_roles =
    "nla" ∷ "router" ∷ "supervisor" ∷ "scout" ∷ "explorer" ∷ "architect" ∷ "implementer"
    ∷ "reviewer" ∷ "compactor" ∷ []

is_absent : Dict RawPool → String → Bool
unfolding lookup
is_absent roles role = elim (lookup role roles) [ none ↦ true | some pool ↦ false ]

has_one_model : Option RawPool → Bool
has_one_model none = false
has_one_model (some pool) = elim pool.models [
  | listed bindings ↦ eqb (length bindings) 1
  | _ ↦ false
]

-- The tests of a configuration that was normalized.
unfoldable pub check_config : Host → Serial → Config → Result SystemError (Unit {0})
unfolding pool_result validate_model_pools required_roles is_absent has_one_model lookup
    assert_no_secrets
check_config host serial config =
    pool_result (validate_model_pools host.is_role_id config.roles)
    >> throw_if (any (is_absent config.roles) required_roles)
        (failed "Orchestra is missing required role")
    >> throw_if (not (has_one_model (lookup "nla" config.roles)))
        (failed "Orchestra nla role requires exactly one coordinator model")
    >> throw_if (ltb 262144 (serial.json_length (serial.as_json config)))
        (failed "Orchestra config is too large")
    >> assert_no_secrets host 25 (serial.as_json config)

unfoldable pub valid_orchestra_config : Host → Serial → RawConfig → Result SystemError Config
unfolding is_other_version is_long normalized check_config
valid_orchestra_config host serial raw =
    throw_if (is_other_version raw.version) (failed "Unsupported orchestra config version")
    >> throw_if (is_long raw.guidance)
        (failed "Orchestra guidance must be a string up to 1000 characters")
    >> check_config host serial (normalized raw)
    >> ok (normalized raw)

-- A stored configuration, as it is parsed: its version is 1.
abbrev pub stored : Config → RawConfig
stored config = record { version = some 1; guidance = config.guidance; roles = config.roles }

unfoldable pub or_go : Option String → String
or_go none = "go"
or_go (some name) = name

unfoldable pub with_go : Config → Database → Database
unfolding insert_or_ignore or_go
with_go config db = record db {
  orchestras =
      insert_or_ignore "go" record { config = config; source = "original-pool-config" }
        db.orchestras;
  active = some (or_go db.active);
}

unfoldable pub initialize_orchestras : Host → Serial → Database → RawConfig → Outcome String
unfolding valid_orchestra_config checked writing with_go or_go
initialize_orchestras host serial db go_config =
    checked db (valid_orchestra_config host serial go_config)
      λ config. writing db λ migrated. ok (with_go config migrated, or_go migrated.active)

is_active : Option String → String → Bool
is_active none name = false
is_active (some active) name = active == name

-- ORDER BY name
by_name : String × OrchestraRow → String × OrchestraRow → Bool
by_name a b = text_le a.0 b.0

-- The name of each orchestra, its source, and whether it is active.
unfoldable list_orchestras : Database → Outcome (List (String × (String × Bool)))
unfolding reading is_active sort_by by_name
list_orchestras db = reading db λ migrated. ok (
    map
      (λ (entry : String × OrchestraRow).
        (entry.0, (entry.1.source, is_active migrated.active entry.0)))
      (sort_by by_name migrated.orchestras))

-- The name that is asked for, or the active one.
unfoldable pub selected : Database → Option String → Result SystemError (Option String)
unfolding valid_orchestra_name
selected db none = ok db.active
selected db (some name) = valid_orchestra_name name >>= λ valid. ok (some valid)

unfoldable pub read_row :
    Host
    → Serial
    → String
    → Option OrchestraRow
    → Result SystemError (Option (String × OrchestraRow))
unfolding valid_orchestra_config
read_row host serial name none = ok none
read_row host serial name (some row) =
    valid_orchestra_config host serial (stored row.config) >>= λ config.
    ok (some (name, record row { config = config }))

unfoldable pub row_named :
    Host
    → Serial
    → Dict OrchestraRow
    → Option String
    → Result SystemError (Option (String × OrchestraRow))
unfolding lookup read_row
row_named host serial orchestras none = ok none
row_named host serial orchestras (some name) = read_row host serial name (lookup name orchestras)

unfoldable pub get_orchestra :
    Host → Serial → Database → Option String → Outcome (Option (String × OrchestraRow))
unfolding reading selected row_named
get_orchestra host serial db name =
    reading db λ migrated. selected migrated name >>= row_named host serial migrated.orchestras

unfoldable pub with_new : String → Config → Database → Database
unfolding insert
with_new name config db = record db {
  orchestras = insert name record { config = config; source = "operator" } db.orchestras;
}

unfoldable pub insert_new : String → Database → Config → Outcome (String × ℕ)
unfolding writing exists_in with_new
insert_new name db valid = writing db λ migrated.
    throw_if (exists_in name migrated.orchestras) (failed "Orchestra already exists")
    >> ok (with_new name valid migrated, (name, length valid.roles))

unfoldable pub save_orchestra : Host → Serial → Database → String → RawConfig → Outcome (String × ℕ)
unfolding valid_orchestra_name valid_orchestra_config checked insert_new
save_orchestra host serial db name config =
    checked db (valid_orchestra_name name)
      λ good. checked db (valid_orchestra_config host serial config) (insert_new name db)

-- UPDATE orchestras SET config_json = ? WHERE name = ?
unfoldable pub with_config : String → Config → Database → Database
unfolding update
with_config name config db = record db {
  orchestras = update name (λ row. record row { config = config }) db.orchestras;
}

unfoldable pub reload_go_orchestra : Host → Serial → Database → RawConfig → Outcome (String × ℕ)
unfolding valid_orchestra_config checked writing with_config
reload_go_orchestra host serial db config =
    checked db (valid_orchestra_config host serial config) λ valid.
      writing db λ migrated. ok (with_config "go" valid migrated, ("go", length valid.roles))

unfoldable pub update_orchestra :
    Host → Serial → Database → String → RawConfig → Outcome (String × ℕ)
unfolding valid_orchestra_name valid_orchestra_config checked writing exists_in with_config
update_orchestra host serial db name config = checked db (valid_orchestra_name name) λ good.
    checked db
      (throw_if (name == "go")
        (failed "The go orchestra is updated only by reloading its original pool file"))
      λ other. checked db (valid_orchestra_config host serial config) λ valid.
        writing db λ migrated.
          throw_if (not (exists_in name migrated.orchestras)) (failed "Unknown orchestra")
          >> ok (with_config name valid migrated, (name, length valid.roles))

-- The row of orchestra_state may be missing, and an UPDATE does not make it.
unfoldable pub with_active : String → Database → Database
with_active name db = record db { active = elim db.active [ none ↦ none | some old ↦ some name ] }

unfoldable pub activate_orchestra : Database → String → Outcome String
unfolding valid_orchestra_name checked writing exists_in with_active
activate_orchestra db name = checked db (valid_orchestra_name name) λ good. writing db λ migrated.
    throw_if (not (exists_in name migrated.orchestras)) (failed "Unknown orchestra")
    >> ok (with_active name migrated, name)
