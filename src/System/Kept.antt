-- ===== src/System/Kept.antt =====
-- nla-system-database.mjs: theorems on saving and reading an orchestra.
use next_level_agent.System.Database.{exists_in}
use next_level_agent.Base.{
  String, false, Option, none, some, [], ◌∷◌, ◌≡◌, refl, ap, ap₂, ◌∙◌, subst, ℕ, length, Dict,
  lookup, lookup-insert_self, ◌==◌, Bool-cases, inl, inr,
}
use next_level_agent.Base.Result.{ok, ◌>>◌, throw_if-eq-ok, >>=-eq-ok, if_ok-eq-ok, ok_injective}
use next_level_agent.Pools.File.{RawPool, RawModels, automatic, unlisted, listed, is_word_of}
use next_level_agent.Pools.Loaded.{normalized_models, normalize_auto_pool}
use next_level_agent.System.Names.{
  SystemError, failed, Host, is_orchestra_name, valid_orchestra_name,
}
use next_level_agent.System.Tables.{Database, Config, OrchestraRow}
use next_level_agent.System.Database.{Outcome, migrate, brought_up}
use next_level_agent.System.Orchestras.{
  Serial, RawConfig, is_long, is_other_version, given_guidance, normalize_pools, normalized,
  check_config, valid_orchestra_config, stored, with_new, insert_new, save_orchestra, get_orchestra,
  selected, row_named, read_row,
}
use next_level_agent.System.Writes.{checked-eq-ok, guarded-eq-ok, reading-eq, migrate_again}

normalized_models_again :
    (pool : RawPool) (models : RawModels)
    → pool.models ≡ models
    → normalize_auto_pool (normalized_models pool models) ≡ normalized_models pool models
unfolding normalize_auto_pool normalized_models
normalized_models_again pool automatic h =
    elim (Bool-cases (is_word_of ("select" ∷ []) pool.selection_mode)) [
      | inl e ↦ rw e refl
      | inr e ↦ rw (e, h, e) refl
    ]
normalized_models_again pool unlisted h = rw h refl
normalized_models_again pool (listed bindings) h = rw h refl

normalize_pools_again :
    (pools : Dict RawPool) → normalize_pools (normalize_pools pools) ≡ normalize_pools pools
unfolding normalize_pools
normalize_pools_again [] = refl
normalize_pools_again ((role, pool) ∷ rest) =
    ap₂ (λ p ps. (role, p) ∷ ps)
      (unfold normalize_auto_pool in normalized_models_again pool pool.models refl)
      (normalize_pools_again rest)

given_guidance_again : (g : Option String) → given_guidance (given_guidance g) ≡ given_guidance g
unfolding given_guidance
given_guidance_again none = refl
given_guidance_again (some s) = elim (Bool-cases (s == "")) [
  | inl e ↦ rw e refl
  | inr e ↦ rw (e, e) refl
]

is_long-given_guidance :
    (g : Option String) → is_long g ≡ false → is_long (given_guidance g) ≡ false
unfolding given_guidance
is_long-given_guidance none h = h
is_long-given_guidance (some s) h = elim (Bool-cases (s == "")) [
  | inl e ↦ rw e (unfold is_long in refl)
  | inr e ↦ rw e h
]

bad_version : SystemError
bad_version = failed "Unsupported orchestra config version"

bad_guidance : SystemError
bad_guidance = failed "Orchestra guidance must be a string up to 1000 characters"

short_again :
    (raw : RawConfig) → is_long raw.guidance ≡ false → is_long (normalized raw).guidance ≡ false
unfolding normalized
short_again raw h = is_long-given_guidance raw.guidance h

normalized-stored : (raw : RawConfig) → normalized (stored (normalized raw)) ≡ normalized raw
unfolding normalized
normalized-stored raw = λ i. record {
  roles = normalize_pools_again raw.roles i;
  guidance = given_guidance_again raw.guidance i;
}

-- A configuration that is accepted is accepted again as it is stored, and is the same.
valid_orchestra_config_again :
    (host : Host) (serial : Serial) (raw : RawConfig) {config : Config}
    → valid_orchestra_config host serial raw ≡ ok config
    → valid_orchestra_config host serial (stored config) ≡ ok config
unfolding valid_orchestra_config bad_version bad_guidance
valid_orchestra_config_again host serial raw h =
    let (_, h1) = throw_if-eq-ok (is_other_version raw.version) bad_version _ h in
    let (short, h2) = throw_if-eq-ok (is_long raw.guidance) bad_guidance _ h1 in
    let (u, checks, h3) =
      >>=-eq-ok (check_config host serial (normalized raw)) (λ _. ok (normalized raw)) h2 in
    subst (λ c. valid_orchestra_config host serial (stored c) ≡ ok c) (ok_injective h3)
      (unfold bad_guidance in
        rw (short_again raw short)
          (ap (λ c. check_config host serial c >> ok c) (normalized-stored raw) ∙ rw checks refl))

valid_orchestra_name-eq : (name : String) {n : String} → valid_orchestra_name name ≡ ok n → n ≡ name
unfolding valid_orchestra_name
valid_orchestra_name-eq name h = (if_ok-eq-ok (is_orchestra_name name) name _ h).1

save_orchestra-eq-ok :
    (host : Host) (serial : Serial) (db : Database) (name : String) (config : RawConfig)
    {answer : String × ℕ}
    → let saved = save_orchestra host serial db name config in
      saved.1 ≡ ok answer
      → (valid : Config) × (valid_orchestra_config host serial config ≡ ok valid)
        × (valid_orchestra_name name ≡ ok name)
        × (migrate db ≡ ok (brought_up db))
        × (saved.0 ≡ with_new name valid (brought_up db))
unfolding save_orchestra insert_new
save_orchestra-eq-ok host serial db name config h =
    let (n, good, h1, e1) = checked-eq-ok db (valid_orchestra_name name) _ h in
    let (valid, passed, h2, e2) =
      checked-eq-ok db (valid_orchestra_config host serial config) (insert_new name db) h1 in
    let (fresh, opened, e3, _) =
      guarded-eq-ok db (λ m. exists_in name m.orchestras) (failed "Orchestra already exists")
        (with_new name valid) (λ m. (name, length valid.roles)) h2 in
    (
      valid,
      passed,
      good ∙ ap ok (valid_orchestra_name-eq name good),
      opened,
      ap (λ (o : Outcome (String × ℕ)). o.0) (e1 ∙ e2) ∙ e3,
    )

get_orchestra-row :
    (host : Host) (serial : Serial) (db : Database) (name : String) (row : OrchestraRow)
    → migrate db ≡ ok (brought_up db)
    → valid_orchestra_name name ≡ ok name
    → lookup name db.orchestras ≡ some row
    → valid_orchestra_config host serial (stored row.config) ≡ ok row.config
    → (get_orchestra host serial db (some name)).1 ≡ ok (some (name, row))
unfolding get_orchestra selected row_named read_row brought_up
get_orchestra-row host serial db name row opened good found valid =
    rw (reading-eq db _ opened) (rw good (rw found (rw valid refl)))

-- What saving stored under a name, in the form that the checks give it, is read back under it.
pub get_orchestra-save_orchestra :
    (host : Host) (serial : Serial) (db : Database) (name : String) (config : RawConfig)
    {answer : String × ℕ}
    → let saved = save_orchestra host serial db name config in
      saved.1 ≡ ok answer
      → (valid : Config) × (valid_orchestra_config host serial config ≡ ok valid)
        × ((get_orchestra host serial saved.0 (some name)).1
            ≡ ok (some (name, record { config = valid; source = "operator" })))
get_orchestra-save_orchestra host serial db name config h =
    let (valid, passed, good, opened, e) = save_orchestra-eq-ok host serial db name config h in
    (
      valid,
      passed,
      rw e (
          get_orchestra-row host serial (with_new name valid (brought_up db)) name _
            (unfold with_new in migrate_again db _ opened refl) good
            (unfold with_new in lookup-insert_self name _ _)
            (valid_orchestra_config_again host serial config passed)),
    )
