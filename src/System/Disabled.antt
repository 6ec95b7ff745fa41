-- ===== src/System/Disabled.antt =====
-- nla-system-database.mjs: theorems on providers that the operator disables.
use next_level_agent.System.Lookups.{lookup-ignored, lookup-update, exists_in-lookup, not-false}
use next_level_agent.System.Database.{exists_in}
use next_level_agent.Base.{
  String, true, false, not, ◌≡◌, refl, sym, ap, ◌∙◌, subst, Option, none, some, List, [], ◌∷◌, Dict,
  lookup, ◌==◌, eq_iff, eq_refl, Bool-cases, inl, inr, arith,
}
use next_level_agent.Base.Result.{ok, throw_if, ok_injective}
use next_level_agent.Base.Texts.{includes}
use next_level_agent.Pools.File.{RawPool, listed}
use next_level_agent.System.Names.{valid_provider_id, provider_of}
use next_level_agent.System.Tables.{Database, ModelRow}
use next_level_agent.System.Database.{Outcome, brought_up, register_providers, enable_if_new}
use next_level_agent.System.Registry.{statuses}
use next_level_agent.System.Listing.{with_provider_status, set_provider_status, provider_status}
use next_level_agent.System.Runtime.{
  PooledFacts, is_disabled, pooled, with_entry, facts_for, facts_of_models, pool_with_system_facts,
}
use next_level_agent.System.Writes.{checked-eq-ok, guarded-eq-ok, reading-eq-ok}

enabled_kept :
    (found : Option String) (providers : Dict String) (provider status : String)
    → lookup provider providers ≡ some status
    → lookup provider (enable_if_new found providers) ≡ some status
unfolding enable_if_new
enabled_kept none providers provider status h = h
enabled_kept (some new) providers provider status h =
    lookup-ignored new provider "enabled" providers status h

-- A migration registers providers, and never changes the status of one.
register_providers-lookup :
    (registry : Dict ModelRow) (providers : Dict String) (provider status : String)
    → lookup provider providers ≡ some status
    → lookup provider (register_providers registry providers) ≡ some status
unfolding register_providers
register_providers-lookup [] providers provider status h = h
register_providers-lookup ((binding, row) ∷ rest) providers provider status h =
    register_providers-lookup rest (enable_if_new (provider_of binding) providers) provider status
      (enabled_kept (provider_of binding) providers provider status h)

set_provider_status-lookup :
    (db : Database) (provider status : String) {answer : String × String}
    → let done = set_provider_status db provider status in
      done.1 ≡ ok answer → lookup provider done.0.providers ≡ some status
unfolding set_provider_status
set_provider_status-lookup db provider status h =
    let (p, good, h1, e1) = checked-eq-ok db (valid_provider_id provider) _ h in
    let (u, known, h2, e2) = checked-eq-ok db (throw_if (not (includes statuses status)) _) _ h1 in
    let (here, opened, e3, _) =
      guarded-eq-ok db (λ m. not (exists_in provider m.providers)) _
        (with_provider_status provider status) (λ m. (provider, status)) h2 in
    let (old, e) =
      exists_in-lookup provider (brought_up db).providers
        (not-false (exists_in provider (brought_up db).providers) here) in
    subst (λ d. lookup provider d.providers ≡ some status)
      (sym (ap (λ (o : Outcome (String × String)). o.0) (e1 ∙ e2) ∙ e3))
      (unfold with_provider_status in
        lookup-update provider provider (λ s. status) (brought_up db).providers old e
        ∙ rw (eq_refl provider) refl)

-- The mark of a model in the facts of a pool.
abbrev pub IsMarked : String → Dict PooledFacts → Type 0
IsMarked binding facts =
    (held : PooledFacts) × (lookup binding facts ≡ some held) × (held.provider_disabled ≡ true)

pooled_marked :
    (found : Option ModelRow)
    → (held : PooledFacts) × (pooled found true ≡ some held) × (held.provider_disabled ≡ true)
unfolding pooled
pooled_marked none = (_, refl, refl)
pooled_marked (some row) = (_, refl, refl)

with_entry_other :
    (b binding : String) (entry : Option PooledFacts) (facts : Dict PooledFacts)
    → (b == binding) ≡ false
    → IsMarked binding facts
    → IsMarked binding (with_entry b entry facts)
unfolding with_entry lookup
with_entry_other b binding none facts h k = k
with_entry_other b binding (some held) facts h k = rw h k

first-IsMarked :
    (db : Database) (b binding : String) (bs : List String)
    → (b == binding) ≡ true
    → is_disabled (provider_status db.providers binding) ≡ true
    → IsMarked binding (
        with_entry b
          (pooled (lookup b db.registry) (is_disabled (provider_status db.providers b)))
          (facts_for db bs))
unfolding with_entry lookup
first-IsMarked db b binding bs same k =
    let disabled : is_disabled (provider_status db.providers b) ≡ true =
      ap (λ c. is_disabled (provider_status db.providers c)) ((eq_iff b binding).0 same) ∙ k in
    let (held, e, mark) = pooled_marked (lookup b db.registry) in
    rw disabled (rw e (held, rw same refl, mark))

facts_for-IsMarked :
    (db : Database) (bindings : List String) (binding : String)
    → includes bindings binding ≡ true
    → is_disabled (provider_status db.providers binding) ≡ true
    → IsMarked binding (facts_for db bindings)
unfolding facts_for includes
facts_for-IsMarked db [] binding h k = cc
facts_for-IsMarked db (b ∷ bs) binding h k = elim (Bool-cases (b == binding)) [
  | inl same ↦ first-IsMarked db b binding bs same k
  | inr other ↦
      with_entry_other b binding _ (facts_for db bs) other
        (facts_for-IsMarked db bs binding (ground arith) k)
]

provider_status-eq :
    (providers : Dict String) (binding provider : String)
    → provider_of binding ≡ some provider
    → provider_status providers binding ≡ lookup provider providers
unfolding provider_status
provider_status-eq providers binding provider h =
    ap (λ (o : Option String). elim o [ none ↦ none | some p ↦ lookup p providers ]) h

some_injective : {a b : Dict PooledFacts} → some a ≡ some b → a ≡ b
some_injective h = cc

pool_facts_eq :
    (db : Database) (pool : RawPool) {bindings : List String} {facts : Dict PooledFacts}
    → pool.models ≡ listed bindings
    → (pool_with_system_facts db pool).1 ≡ ok (some facts)
    → facts_for (brought_up db) bindings ≡ facts
unfolding pool_with_system_facts facts_of_models
pool_facts_eq db pool {bindings} {facts} h got =
    let read : (facts_of_models db (listed bindings)).1 ≡ ok (some facts) =
      subst (λ models. (facts_of_models db models).1 ≡ ok (some facts)) h got in
    some_injective (ok_injective (reading-eq-ok db (λ m. ok (some (facts_for m bindings))) read))

-- When the operator has disabled a provider, the facts that a pool gets mark every one of its models that
-- is of this provider, registered or not.
pub pool_with_system_facts-IsMarked :
    (db : Database) (provider binding : String) {answer : String × String} (pool : RawPool)
    {bindings : List String} {facts : Dict PooledFacts}
    → let done = set_provider_status db provider "disabled" in
      done.1 ≡ ok answer
      → pool.models ≡ listed bindings
      → includes bindings binding ≡ true
      → provider_of binding ≡ some provider
      → (pool_with_system_facts done.0 pool).1 ≡ ok (some facts)
      → IsMarked binding facts
pool_with_system_facts-IsMarked db provider binding pool {bindings} h listing here of_provider got =
    let done : Database = (set_provider_status db provider "disabled").0 in
    let known : lookup provider (brought_up done).providers ≡ some "disabled" =
      unfold brought_up in
      register_providers-lookup done.registry done.providers provider "disabled"
        (set_provider_status-lookup db provider "disabled" h) in
    let marked : is_disabled (provider_status (brought_up done).providers binding) ≡ true =
      ap is_disabled
        (provider_status-eq (brought_up done).providers binding provider of_provider ∙ known)
      ∙ unfold is_disabled in refl in
    subst (IsMarked binding) (pool_facts_eq done pool listing got)
      (facts_for-IsMarked (brought_up done) bindings binding here marked)
