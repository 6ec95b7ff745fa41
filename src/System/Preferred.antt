-- ===== src/System/Preferred.antt =====
-- nla-system-database.mjs: theorems on saving and reading preferences.
use Prim.Native.Char.{code}
use Prim.Native.String.{◌++◌ as text_append}
use text.Mathlib.TextLemmas.{cons-append}
use next_level_agent.Base.{
  ℕ, zero, suc, Bool-cases, inl, inr, eq_iff, String, Bool, true, false, not, Option, none, some,
  ◌≡◌, refl, sym, ap, ap₂, ◌∙◌, lookup, lookup-insert_self, lookup-erase, lookup-erase_self, ◌==◌,
  arith,
}
use next_level_agent.Base.Result.{ok, ◌>>◌, throw_if, >>=-eq-ok}
use next_level_agent.System.Names.{failed, Host, is_setting_key}
use next_level_agent.System.Json.{Json}
use next_level_agent.System.Tables.{Database}
use next_level_agent.System.Database.{Outcome, migrate, brought_up, checked, and_then}
use next_level_agent.System.Settings.{setting_key, validate_setting, get_system_setting}
use next_level_agent.System.Preferences.{
  property, effective, scope_of, policy_key, preferences_key, valid_target, with_preferences,
  save_selection_preferences, configured_selection_preferences,
}
use next_level_agent.System.Writes.{checked-eq-ok, guarded-eq-ok, reading-eq, migrate_again}

both_pass :
    {E A : Type 0} (a b : Bool) (e f : E) (k : A) {x : A}
    → (throw_if a e >> throw_if b f >> ok k) ≡ ok x
    → (throw_if a e >> throw_if b f >> ok k) ≡ ok k
both_pass true b e f k h = cc
both_pass false true e f k h = cc
both_pass false false e f k h = refl

setting_key-eq :
    (host : Host) (key : String) {k : String}
    → setting_key host key ≡ ok k
    → setting_key host key ≡ ok key
unfolding setting_key
setting_key-eq host key h = both_pass (not (is_setting_key key)) (host.is_secret_key key) _ _ key h

validate_setting-key :
    (host : Host) (key : String) (value : Json) {u : Unit {0}}
    → validate_setting host key value ≡ ok u
    → setting_key host key ≡ ok key
unfolding validate_setting
validate_setting-key host key value h =
    let (k, good, _) = >>=-eq-ok (setting_key host key) _ h in setting_key-eq host key good

-- The character at a place, by its code.
code_at : ℕ → String → Option ℕ
code_at n String.[] = none
code_at zero (String.◌∷◌ c s) = some (code c)
code_at (suc n) (String.◌∷◌ c s) = code_at n s

code_at-append :
    (n : ℕ) (p s : String) {c : ℕ} → code_at n p ≡ some c → code_at n (text_append p s) ≡ some c
unfolding code_at
code_at-append n String.[] s h = cc
code_at-append zero (String.◌∷◌ d p) s h = rw (cons-append d p s) h
code_at-append (suc n) (String.◌∷◌ d p) s h = rw (cons-append d p s) (code_at-append n p s h)

some_injective : (a b : ℕ) → some a ≡ some b → a ≡ b
some_injective a b h = cc

-- The two keys of a scope differ in their 20th character.
policy_key-preferences_key : (scope : String) → (policy_key scope == preferences_key scope) ≡ false
policy_key-preferences_key scope = elim (Bool-cases (policy_key scope == preferences_key scope)) [
  | inl e ↦
      let same =
        sym (code_at-append 19 "routing.selection_policy." scope {c = 111} (unfold code_at in refl))
        ∙ ap (code_at 19) ((eq_iff (policy_key scope) (preferences_key scope)).0 e)
        ∙ code_at-append 19 "routing.selection_preferences." scope {c = 114}
            (unfold code_at in refl) in
      let equal = some_injective 111 114 same in absurd (omega arith)
  | inr e ↦ e
]

get_system_setting-eq :
    (host : Host) (db : Database) (key : String)
    → migrate db ≡ ok (brought_up db)
    → setting_key host key ≡ ok key
    → get_system_setting host db key ≡ (brought_up db, ok (lookup key db.settings))
unfolding get_system_setting brought_up
get_system_setting-eq host db key opened good = rw (reading-eq db _ opened) (rw good refl)

-- The values of both keys after a write.
with_preferences-lookups :
    (scope : String) (preferences : Json) (db : Database)
    → let settings = (with_preferences scope preferences db).settings in
      (lookup (preferences_key scope) settings ≡ some preferences)
      × (lookup (policy_key scope) settings ≡ none)
unfolding with_preferences
with_preferences-lookups scope preferences db = (
  lookup-erase (policy_key scope) (preferences_key scope) _
      ∙ rw (policy_key-preferences_key scope)
          (lookup-insert_self (preferences_key scope) preferences db.settings),
  lookup-erase_self (policy_key scope) _,
)

save_selection_preferences-eq-ok :
    (host : Host) (db : Database) (role orchestra : String) (preferences : Json) {answer : Json}
    → let scope = scope_of role orchestra in
      let saved = save_selection_preferences host db role orchestra preferences in
      saved.1 ≡ ok answer
      → (target : String) × (valid_target role orchestra ≡ ok target)
        × (setting_key host (preferences_key scope) ≡ ok (preferences_key scope))
        × (migrate db ≡ ok (brought_up db))
        × (saved.0 ≡ with_preferences scope preferences (brought_up db))
unfolding save_selection_preferences
save_selection_preferences-eq-ok host db role orchestra preferences h =
    let scope : String = scope_of role orchestra in
    let key : String = preferences_key scope in
    let (target, good, h1, e1) = checked-eq-ok db (valid_target role orchestra) _ h in
    let (u, accepted, h2, e2) = checked-eq-ok db (validate_setting host key preferences) _ h1 in
    let (_, opened, e3, _) =
      guarded-eq-ok db (λ m. false) (failed "") (with_preferences scope preferences)
        (λ m. preferences) h2 in
    (
      target,
      good,
      validate_setting-key host key preferences accepted,
      opened,
      ap (λ (o : Outcome Json). o.0) (e1 ∙ e2) ∙ e3,
    )

configured_selection_preferences-eq :
    (host : Host) (db : Database) (role orchestra : String) {target : String}
    → let scope = scope_of role orchestra in
      migrate db ≡ ok (brought_up db)
      → valid_target role orchestra ≡ ok target
      → setting_key host (preferences_key scope) ≡ ok (preferences_key scope)
      → setting_key host (policy_key scope) ≡ ok (policy_key scope)
      → (configured_selection_preferences host db role orchestra).1
        ≡ ok (
            effective
              (lookup (preferences_key scope) db.settings)
              (lookup (policy_key scope) db.settings))
unfolding configured_selection_preferences checked and_then brought_up
configured_selection_preferences-eq host db role orchestra opened good key allowed =
    let scope : String = scope_of role orchestra in
    rw good (
      rw (get_system_setting-eq host db (preferences_key scope) opened key) (
        rw
          (get_system_setting-eq host (brought_up db) (policy_key scope)
            (migrate_again db (brought_up db) opened refl) allowed)
          refl))

-- Preferences that were saved for a role in an orchestra are from then on the configured ones, in full,
-- even where a policy alone was saved before, if the key of that policy is one that may be asked for.
pub configured_selection_preferences_saved :
    (host : Host) (db : Database) (role orchestra : String) (preferences : Json) {answer : Json}
    → setting_key host (policy_key (scope_of role orchestra))
      ≡ ok (policy_key (scope_of role orchestra))
    → let saved = save_selection_preferences host db role orchestra preferences in
      saved.1 ≡ ok answer
      → (configured_selection_preferences host saved.0 role orchestra).1
        ≡ ok (
            some record {
              selection_policy = property "selection_policy" preferences;
              minimum_score = some (property "minimum_score" preferences);
            })
configured_selection_preferences_saved host db role orchestra preferences allowed h =
    let (target, good, key, opened, e) =
      save_selection_preferences-eq-ok host db role orchestra preferences h in
    let scope : String = scope_of role orchestra in
    let after : Database = with_preferences scope preferences (brought_up db) in
    let (held, gone) = with_preferences-lookups scope preferences (brought_up db) in
    rw e (
      configured_selection_preferences-eq host after role orchestra
        (unfold with_preferences in migrate_again db _ opened refl) good key allowed
      ∙ ap₂ (λ a b. ok (effective a b)) held gone
      ∙ unfold effective in refl)
