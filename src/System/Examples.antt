-- ===== src/System/Examples.antt =====
-- Concrete runs on the system database.
use next_level_agent.Base.{true, false, none, some, List, [], ◌∷◌, ◌≡◌, ◌⊎◌, ◌≤◌, ◌↔◌, refl, lookup}
use next_level_agent.Base.Result.{ok}
use next_level_agent.Base.Texts.{includes}
use next_level_agent.Pools.Binding.{is_binding_part}
use next_level_agent.Pools.File.{RawPool, RawModels}
use next_level_agent.System.Names.{Host}
use next_level_agent.System.Json.{
  Json, null, text, number, object, no_members, member, assert_no_secrets, depth, holds_secret,
  assert_no_secrets_iff,
}
use next_level_agent.System.Tables.{Database, Config, OrchestraRow}
use next_level_agent.System.Settings.{setting_key}
use next_level_agent.System.Preferences.{
  property, scope_of, policy_key, save_selection_preferences, configured_selection_preferences,
}
use next_level_agent.System.Orchestras.{
  Serial, RawConfig, valid_orchestra_config, save_orchestra, get_orchestra,
}
use next_level_agent.System.Calls as Orchestra
use next_level_agent.System.Active.{names_a_row, any_changes, run-names_a_row, run-lookup}
use next_level_agent.System.Kept.{get_orchestra-save_orchestra}
use next_level_agent.System.Preferred.{configured_selection_preferences_saved}
use next_level_agent.System.Sessions.{Legacy, has_system_restore_block}
use next_level_agent.System.Marks as Session
use next_level_agent.System.Blocked.{has_system_restore_block-run}

abbrev pub host : Host
host = record {
  has_secret = λ s. false;
  is_secret_key = λ s. false;
  trim = λ s. s;
  is_role_id = λ s. true;
}

abbrev pub serial : Serial
serial = record { as_json = λ c. null; json_length = λ v. 0 }

abbrev pub empty_database : Database
empty_database = record {
  versions = [];
  imported = [];
  settings = [];
  orchestras = [];
  active = none;
  evaluations = [];
  registry = [];
  providers = [];
  notes = [];
  health = [];
  ledgers = [];
  blocks = [];
  catalog = [];
  usage = [];
}

-- A session whose earlier record of a block cannot be read is blocked, and stays so.
damaged_blocks : (has_system_restore_block empty_database Legacy.malformed "session_1").1 ≡ ok true
unfolding has_system_restore_block
damaged_blocks = refl

abbrev later_calls : List Session.Call
later_calls = Session.ask_block Legacy.absent "session_2" ∷ []

has_system_restore_block-run_example : ¬ (
    (has_system_restore_block
      (Session.run host serial
        (has_system_restore_block empty_database Legacy.malformed "session_1").0
        later_calls)
      Legacy.absent
      "session_1").1
    ≡ ok false)
has_system_restore_block-run_example =
    has_system_restore_block-run host serial empty_database Legacy.malformed Legacy.absent
      "session_1" later_calls damaged_blocks

-- A pool of one model, and a configuration with all roles.
abbrev pub one_model : RawPool
one_model = record {
  enabled = none;
  selection_mode = none;
  selection_policy = none;
  preferred_providers = none;
  minimum_score = none;
  selection_weights = none;
  runtime = none;
  models = RawModels.listed ("acme/one" ∷ []);
  model_facts = none;
  model_metadata = none;
}

abbrev all_roles : RawConfig
all_roles = record {
  version = none;
  guidance = some "Prefer small steps.";
  roles =
      ("nla", one_model)
      ∷ ("router", one_model)
      ∷ ("supervisor", one_model)
      ∷ ("scout", one_model)
      ∷ ("explorer", one_model)
      ∷ ("architect", one_model)
      ∷ ("implementer", one_model)
      ∷ ("reviewer", one_model)
      ∷ ("compactor", one_model)
      ∷ [];
}

abbrev orchestra_calls : List Orchestra.Call
orchestra_calls =
    Orchestra.initialize all_roles
    ∷ Orchestra.save "night" all_roles
    ∷ Orchestra.activate "night"
    ∷ []

starts_without_active : names_a_row empty_database ≡ true
unfolding names_a_row
starts_without_active = refl

run-names_a_row_example :
    names_a_row (Orchestra.run host serial empty_database orchestra_calls) ≡ true
run-names_a_row_example =
    run-names_a_row host serial orchestra_calls empty_database starts_without_active

-- The calls do what they say: the new orchestra is the active one.
night_is_active : (Orchestra.run host serial empty_database orchestra_calls).active ≡ some "night"
unfolding Orchestra.run is_binding_part includes
night_is_active = refl

abbrev go_row : OrchestraRow
go_row = record {
  config = record { roles = all_roles.roles; guidance = none };
  source = "original-pool-config";
}

abbrev with_go : Database
with_go = record empty_database { orchestras = ("go", go_row) ∷ []; active = some "go" }

go_is_there : lookup "go" with_go.orchestras ≡ some go_row
unfolding lookup
go_is_there = refl

run-lookup_example :
    ((after : OrchestraRow) × (lookup "go"
          (Orchestra.run host serial with_go orchestra_calls).orchestras
        ≡ some after)
      × (after.source ≡ "original-pool-config"))
    × ((any_changes orchestra_calls "go" ≡ true)
        ⊎ (lookup "go" (Orchestra.run host serial with_go orchestra_calls).orchestras
            ≡ some go_row))
run-lookup_example = run-lookup host serial orchestra_calls with_go "go" go_row go_is_there

night_is_saved : (save_orchestra host serial empty_database "night" all_roles).1 ≡ ok ("night", 9)
unfolding save_orchestra is_binding_part includes
night_is_saved = refl

get_orchestra-save_orchestra_example :
    (valid : Config) × (valid_orchestra_config host serial all_roles ≡ ok valid)
    × ((get_orchestra host serial
          (save_orchestra host serial empty_database "night" all_roles).0
          (some "night")).1
        ≡ ok (some ("night", record { config = valid; source = "operator" })))
get_orchestra-save_orchestra_example =
    get_orchestra-save_orchestra host serial empty_database "night" all_roles night_is_saved

abbrev frugal : Json
frugal =
    object
      (member "minimum_score" (number 700) (member "selection_policy" (text "cost") no_members))

key_is_allowed :
    setting_key host (policy_key (scope_of "scout" "go")) ≡ ok (policy_key (scope_of "scout" "go"))
unfolding setting_key scope_of
key_is_allowed = refl

frugal_is_saved : (save_selection_preferences host empty_database "scout" "go" frugal).1 ≡ ok frugal
unfolding save_selection_preferences
frugal_is_saved = refl

configured_selection_preferences_saved_example :
    (configured_selection_preferences host
      (save_selection_preferences host empty_database "scout" "go" frugal).0
      "scout"
      "go").1
    ≡ ok (
        some record {
          selection_policy = property "selection_policy" frugal;
          minimum_score = some (property "minimum_score" frugal);
        })
configured_selection_preferences_saved_example =
    configured_selection_preferences_saved host empty_database "scout" "go" frugal key_is_allowed
      frugal_is_saved

assert_no_secrets_iff_example :
    (assert_no_secrets host 25 frugal ≡ ok tt)
    ↔ (depth frugal ≤ 24) × (holds_secret host frugal ≡ false)
assert_no_secrets_iff_example = assert_no_secrets_iff host frugal
