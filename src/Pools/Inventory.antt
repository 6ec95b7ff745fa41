-- ===== src/Pools/Inventory.antt =====
-- What a preflight that passes says of the models of the pools.
use next_level_agent.Base.{
  ℕ, ◌≡◌, ◌≢◌, ◌⊎◌, refl, ap, ap₂, eq_iff, lookup, none, false, ◌==◌, ◌∙◌, sym, subst, String, Bool,
  true, ◌&&◌, not, Option, some, List, [], ◌∷◌, ◌++◌, Dict, All, Bool-cases, inl, inr, arith,
}
use next_level_agent.Base.Result.{ok, >>=-eq-ok, ok_injective}
use next_level_agent.Base.Texts.{includes}
use next_level_agent.Pools.Binding.{parse_model_binding, parse_model_binding-parts}
use next_level_agent.Pools.File.{RawFacts, RawPool, listed, is_word_of, validate_model_pools}
use next_level_agent.Pools.Loaded.{
  needed, is_disabled, missing_among, unavailable, parse_all, none_missing, preflight_model_pools,
}

-- Each model is disabled, or in the inventory.
abbrev AreCovered : List String → Option (Dict RawFacts) → List String → Type 0
AreCovered inventory facts = All (λ b. (is_disabled facts b ≡ false) → includes inventory b ≡ true)

missing_among-AreCovered :
    (role : String) (facts : Option (Dict RawFacts)) (available models : List String)
    → missing_among role facts available models ≡ []
    → AreCovered available facts models
unfolding missing_among
missing_among-AreCovered role facts available [] h = tt
missing_among-AreCovered role facts available (b ∷ bs) h =
    elim (Bool-cases (not (is_disabled facts b) && not (includes available b))) [
      | inl e ↦ let k = rw e at h in cc
      | inr e ↦ (λ on. ground arith, missing_among-AreCovered role facts available bs (rw e at h))
    ]

nil_append : {A : Type 0} (xs ys : List A) → xs ++ ys ≡ [] → (xs ≡ []) × (ys ≡ [])
nil_append [] ys h = (refl, h)
nil_append (x ∷ xs) ys h = cc

unavailable-AreCovered :
    (available : List String) (roles : Dict RawPool)
    → unavailable available roles ≡ []
    → All (λ r. AreCovered available r.1.model_facts (needed r.1)) roles
unfolding unavailable
unavailable-AreCovered available [] h = tt
unavailable-AreCovered available ((role, pool) ∷ rest) h =
    let (p, q) = nil_append (missing_among role pool.model_facts available (needed pool)) _ h in
    (
      missing_among-AreCovered role pool.model_facts available (needed pool) p,
      unavailable-AreCovered available rest q,
    )

none_missing-eq : (xs : List String) {u : Unit {0}} → none_missing xs ≡ ok u → xs ≡ []
unfolding none_missing
none_missing-eq [] h = refl
none_missing-eq (x ∷ xs) h = cc

parse_all-eq : (bs : List String) {qs : List String} → parse_all bs ≡ ok qs → qs ≡ bs
unfolding parse_all
parse_all-eq [] h = sym (ok_injective h)
parse_all-eq (b ∷ bs) h =
    let (q, e, h1) = >>=-eq-ok (parse_model_binding b) _ h in
    let (qs, es, h2) = >>=-eq-ok (parse_all bs) _ h1 in
    sym (ok_injective h2)
    ∙ ap₂ (λ x xs. x ∷ xs) (parse_model_binding-parts b e).2 (parse_all-eq bs es)

-- The facts of the pool mark the model as disabled.
abbrev pub IsDisabled : Option (Dict RawFacts) → String → Type 0
IsDisabled facts b =
    (table : Dict RawFacts) × (f : RawFacts) × (facts ≡ some table)
    × (lookup b table ≡ some f)
    × (f.status ≡ some "disabled")

is_disabled-IsDisabled :
    (facts : Option (Dict RawFacts)) (b : String) → is_disabled facts b ≡ true → IsDisabled facts b
unfolding is_disabled is_word_of includes
is_disabled-IsDisabled none b h = cc
is_disabled-IsDisabled (some table) b h = found (lookup b table) refl h
  where
    word : (w : Option String) → is_word_of ("disabled" ∷ []) w ≡ true → w ≡ some "disabled"
    word none k = cc
    word (some w) k = ap some (sym ((eq_iff "disabled" w).0 (ground arith)))

    found :
        (o : Option RawFacts)
        → lookup b table ≡ o
        → elim o [ none ↦ false | some f ↦ is_word_of ("disabled" ∷ []) f.status ] ≡ true
        → IsDisabled (some table) b
    found none e k = cc
    found (some f) e k = (table, f, refl, e, word f.status k)

named_in :
    (available : List String) (facts : Option (Dict RawFacts)) (models : List String)
    → AreCovered available facts models
    → All (λ b. IsDisabled facts b ⊎ (includes available b ≡ true)) models
named_in available facts [] h = tt
named_in available facts (b ∷ bs) (p, h) = (
  elim (Bool-cases (is_disabled facts b)) [
    | inl e ↦ inl (is_disabled-IsDisabled facts b e)
    | inr e ↦ inr (p e)
  ],
  named_in available facts bs h,
)

lookup-AreCovered :
    (available : List String) (roles : Dict RawPool) (role : String) {pool : RawPool}
    → lookup role roles ≡ some pool
    → All (λ r. AreCovered available r.1.model_facts (needed r.1)) roles
    → AreCovered available pool.model_facts (needed pool)
unfolding lookup
lookup-AreCovered available [] role e h = cc
lookup-AreCovered available ((name, p) ∷ rest) role {pool} e (here, h) =
    elim (Bool-cases (name == role)) [
      | inl k ↦
          subst (λ q. AreCovered available q.model_facts (needed q)) (some_pool p pool (rw k at e))
            here
      | inr k ↦ lookup-AreCovered available rest role (rw k at e) h
    ]
  where
    some_pool : (p q : RawPool) → some p ≡ some q → p ≡ q
    some_pool p q h = cc

is_word_of_other :
    (mode : Option String) → mode ≢ some "auto" → is_word_of ("auto" ∷ []) mode ≡ false
unfolding is_word_of includes
is_word_of_other none h = refl
is_word_of_other (some w) h = elim (Bool-cases ("auto" == w)) [
  | inl e ↦ absurd (h (ap some (sym ((eq_iff "auto" w).0 e))))
  | inr e ↦ rw e refl
]

needed-eq :
    (pool : RawPool) {bindings : List String}
    → pool.enabled ≡ some true
    → pool.selection_mode ≢ some "auto"
    → pool.models ≡ listed bindings
    → needed pool ≡ bindings
unfolding needed
needed-eq pool on fixed l = rw (on, l, is_word_of_other pool.selection_mode fixed) refl

-- When a preflight with an inventory passes, every model in the list of an enabled pool whose mode is
-- not auto is in the inventory, unless the facts of the pool give it the status disabled.
pub preflight_model_pools-AreCovered :
    (is_role_id : String → Bool) (roles : Dict RawPool) (inventory : List String) (role : String)
    {pool : RawPool} {bindings : List String} {result : ℕ × Bool}
    → preflight_model_pools is_role_id roles (some inventory) ≡ ok result
    → lookup role roles ≡ some pool
    → pool.enabled ≡ some true
    → pool.selection_mode ≢ some "auto"
    → pool.models ≡ listed bindings
    → All (λ b. IsDisabled pool.model_facts b ⊎ (includes inventory b ≡ true)) bindings
unfolding preflight_model_pools
preflight_model_pools-AreCovered is_role_id roles inventory role {pool} {bindings} h e on fixed l =
    let (_, _, h1) = >>=-eq-ok (validate_model_pools is_role_id roles) _ h in
    let (available, a, h2) = >>=-eq-ok (parse_all inventory) _ h1 in
    let (_, m, _) = >>=-eq-ok (none_missing (unavailable available roles)) _ h2 in
    let covered =
      lookup-AreCovered available roles role e
        (unavailable-AreCovered available roles (none_missing-eq _ m)) in
    named_in inventory pool.model_facts bindings (
      subst (λ (xs : List String). AreCovered xs pool.model_facts bindings)
        (parse_all-eq inventory a)
        (subst (λ (xs : List String). AreCovered available pool.model_facts xs)
          (needed-eq pool on fixed l) covered))
