-- ===== src/System/Calls.antt =====
-- nla-system-database.mjs: the calls on the orchestras, and what their writes have in common.
use next_level_agent.System.Lookups.{not-false}
use next_level_agent.System.Database.{exists_in}
use next_level_agent.Base.{
  ℕ, length, String, Bool, true, false, not, Option, List, [], ◌∷◌, ◌≡◌, ◌==◌, eq_refl,
}
use next_level_agent.Base.Result.{ok, ◌>>◌, throw_if}
use next_level_agent.System.Names.{SystemError, failed, Host, valid_orchestra_name}
use next_level_agent.System.Tables.{Database, Config}
use next_level_agent.System.Database.{Outcome, brought_up, writing, checked}
use next_level_agent.System.Orchestras.{
  Serial, RawConfig, valid_orchestra_config, or_go, with_go, with_new, insert_new, with_config,
  with_active, initialize_orchestras, save_orchestra, reload_go_orchestra, update_orchestra,
  activate_orchestra, get_orchestra,
}
use next_level_agent.System.Writes.{plain_keeps, guarded_keeps, reading_keeps, checked_keeps}

-- A call on the orchestras.
pub data Call : Type 0 where
  initialize : RawConfig → Call
  save : String → RawConfig → Call
  reload : RawConfig → Call
  revise : String → RawConfig → Call
  activate : String → Call
  get : Option String → Call

-- The database after a call; its value or error is forgotten.
unfoldable pub step : Host → Serial → Database → Call → Database
unfolding initialize_orchestras save_orchestra reload_go_orchestra update_orchestra
    activate_orchestra get_orchestra
step host serial db (initialize config) = (initialize_orchestras host serial db config).0
step host serial db (save name config) = (save_orchestra host serial db name config).0
step host serial db (reload config) = (reload_go_orchestra host serial db config).0
step host serial db (revise name config) = (update_orchestra host serial db name config).0
step host serial db (activate name) = (activate_orchestra db name).0
step host serial db (get name) = (get_orchestra host serial db name).0

unfoldable pub run : Host → Serial → Database → List Call → Database
unfolding step
run host serial db [] = db
run host serial db (call ∷ calls) = run host serial (step host serial db call) calls

-- Whether a call replaces the configuration of an orchestra.
unfoldable pub changes : Call → String → Bool
changes (revise name config) asked = name == asked
changes (reload config) asked = "go" == asked
changes _ asked = false

not_go : SystemError
not_go = failed "The go orchestra is updated only by reloading its original pool file"

-- A property that each write keeps, under the guard of its call, is kept by every call.
module _ (host : Host) (serial : Serial) (P : Database → Type 0) (db : Database) (start : P db)
    (migrated : P (brought_up db)) (on_go : (config : Config) → P (with_go config (brought_up db)))
    (on_new : (name : String) (config : Config)
      → exists_in name db.orchestras ≡ false
      → P (with_new name config (brought_up db)))
    (on_active : (name : String)
      → exists_in name db.orchestras ≡ true
      → P (with_active name (brought_up db))) where
  revised : String → Config → Outcome (String × ℕ)
  revised name v = writing db λ m.
      throw_if (not (exists_in name m.orchestras)) (failed "Unknown orchestra")
      >> ok (with_config name v m, (name, length v.roles))

  activated : String → String → Outcome String
  activated name valid = writing db λ m.
      throw_if (not (exists_in name m.orchestras)) (failed "Unknown orchestra")
      >> ok (with_active name m, name)

  initialize_keeps : (config : RawConfig) → P (initialize_orchestras host serial db config).0
  unfolding initialize_orchestras
  initialize_keeps config =
      checked_keeps P db (valid_orchestra_config host serial config)
        (λ v. writing db λ m. ok (with_go v m, or_go m.active)) start
        λ v good. plain_keeps P db (with_go v) (λ m. or_go m.active) start (on_go v)

  save_keeps :
      (name : String) (config : RawConfig) → P (save_orchestra host serial db name config).0
  unfolding save_orchestra brought_up insert_new
  save_keeps name config =
      checked_keeps P db (valid_orchestra_name name)
        (λ n. checked db (valid_orchestra_config host serial config) (insert_new name db)) start
        λ n good.
          checked_keeps P db (valid_orchestra_config host serial config) (insert_new name db) start
            λ v passed.
              guarded_keeps P db (λ m. exists_in name m.orchestras)
                (failed "Orchestra already exists") (with_new name v) (λ m. (name, length v.roles))
                start (on_new name v)

  activate_keeps : (name : String) → P (activate_orchestra db name).0
  unfolding activate_orchestra brought_up activated
  activate_keeps name =
      checked_keeps P db (valid_orchestra_name name) (activated name) start λ n good.
        guarded_keeps P db (λ m. not (exists_in name m.orchestras)) (failed "Unknown orchestra")
          (with_active name) (λ m. name) start λ known. on_active name (not-false _ known)

  get_keeps : (name : Option String) → P (get_orchestra host serial db name).0
  unfolding get_orchestra
  get_keeps name = reading_keeps P db _ start migrated

  reload_keeps :
      (config : RawConfig)
      → ((v : Config) → P (with_config "go" v (brought_up db)))
      → P (reload_go_orchestra host serial db config).0
  unfolding reload_go_orchestra
  reload_keeps config on_config =
      checked_keeps P db (valid_orchestra_config host serial config)
        (λ v. writing db λ m. ok (with_config "go" v m, ("go", length v.roles))) start
        λ v good.
          plain_keeps P db (with_config "go" v) (λ m. ("go", length v.roles)) start (on_config v)

  revise_keeps :
      (name : String) (config : RawConfig)
      → ((v : Config) → P (with_config name v (brought_up db)))
      → P (update_orchestra host serial db name config).0
  unfolding update_orchestra revised not_go
  revise_keeps name config on_config =
      checked_keeps P db (valid_orchestra_name name)
        (λ n.
          checked db (throw_if (name == "go") not_go)
            λ other. checked db (valid_orchestra_config host serial config) (revised name))
        start
        λ n good.
          checked_keeps P db (throw_if (name == "go") not_go)
            (λ other. checked db (valid_orchestra_config host serial config) (revised name)) start
            λ other apart.
              checked_keeps P db (valid_orchestra_config host serial config) (revised name) start
                λ v passed.
                  guarded_keeps P db (λ m. not (exists_in name m.orchestras))
                    (failed "Unknown orchestra") (with_config name v) (λ m. (name, length v.roles))
                    start λ known. on_config v

  pub step_keeps :
      (call : Call)
      → ((name : String) (v : Config)
          → changes call name ≡ true
          → P (with_config name v (brought_up db)))
      → P (step host serial db call)
  unfolding step changes
  step_keeps (initialize config) on_config = initialize_keeps config
  step_keeps (save name config) on_config = save_keeps name config
  step_keeps (reload config) on_config = reload_keeps config λ v. on_config "go" v (eq_refl "go")
  step_keeps (revise name config) on_config =
      revise_keeps name config λ v. on_config name v (eq_refl name)
  step_keeps (activate name) on_config = activate_keeps name
  step_keeps (get name) on_config = get_keeps name
