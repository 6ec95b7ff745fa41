-- ===== src/Selection/Auto.antt =====
-- nla-model-selection.mjs: the pools that `materializeAutoPool` returns, and the policy of a task.
use next_level_agent.Base.{
  ◌≡◌, ◌≢◌, ◌⊎◌, ◌||◌, ◌==◌, eq_iff, eq_refl, In, All, Bool, false, Option, none, ap, sym, subst,
  ◌∙◌, refl, String, true, not, some, List, [], ◌∷◌, ◌++◌, select, All-append, inl, inr, Bool-cases,
  arith,
}
use next_level_agent.Base.Result.{ok, ok_injective}
use next_level_agent.Base.Sorting.{includes-sort_by, select-All, sort_by-All}
use next_level_agent.Base.TextOrder.{text_le}
use next_level_agent.Base.Texts.{
  includes, includes-select, Within, select-Within, Within-refl, Within-includes,
}
use next_level_agent.Selection.Boundary.{InBoundary, boundary_of}
use next_level_agent.Selection.Pool.{
  Facts, named, provider_disabled, matches_policy_boundary, Pool, Registered, auto, selection_mode,
  listed_models, is_eligible, bindings_of, preferred_among, auto_models, auto_pool, materialize_in,
  materialize_auto_pool,
}

includes-append_left :
    (xs ys : List String) (s : String) → includes xs s ≡ true → includes (xs ++ ys) s ≡ true
unfolding includes
includes-append_left [] ys s h = cc
includes-append_left (x ∷ xs) ys s h = ground (arith, includes-append_left xs ys s)

includes-append_right :
    (xs ys : List String) (s : String) → includes ys s ≡ true → includes (xs ++ ys) s ≡ true
unfolding includes
includes-append_right [] ys s h = h
includes-append_right (x ∷ xs) ys s h = ground (arith, includes-append_right xs ys s)

auto_models_sound :
    (preferred available : List String)
    → Within preferred available
    → Within (auto_models preferred available) available
unfolding auto_models
auto_models_sound preferred available h =
    All-append (λ b. includes available b ≡ true) preferred _ h
      (sort_by-All text_le (λ b. includes available b ≡ true) _ (select-Within _ available))

auto_models_complete :
    (preferred available bs : List String)
    → Within bs available
    → Within bs (auto_models preferred available)
auto_models_complete preferred available [] h = tt
auto_models_complete preferred available (b ∷ bs) (p, h) = (
  elim (Bool-cases (includes preferred b)) [
    | inl e ↦ unfold auto_models in includes-append_left preferred _ b e
    | inr e ↦
        unfold auto_models in
        includes-append_right preferred _ b (
          rw (includes-sort_by text_le (select (λ c. not (includes preferred c)) available) b)
            (includes-select (λ c. not (includes preferred c)) available b p (rw e refl)))
  ],
  auto_models_complete preferred available bs h,
)

-- A record of the registry that an auto pool may take.
pub record IsUsable (inventory : List String) (policy : Option String) (r : Registered)
    : Type 0 where
  pub enabled : r.status ≡ some "enabled"
  pub provider_on : r.provider_status ≢ some "disabled"
  pub available : includes inventory r.binding ≡ true
  pub boundary : InBoundary policy r.binding r.facts

named-eq : (o : Option String) (w : String) → named o w ≡ true → o ≡ some w
named-eq none w h = cc
named-eq (some s) w h = ap some ((eq_iff s w).0 h)

provider_disabled-other : (o : Option String) → provider_disabled o ≡ false → o ≢ some "disabled"
unfolding provider_disabled
provider_disabled-other none h e = cc
provider_disabled-other (some s) h e = ground (arith, eq_iff s "disabled")

other-provider_disabled : (o : Option String) → o ≢ some "disabled" → provider_disabled o ≡ false
unfolding provider_disabled
other-provider_disabled none h = refl
other-provider_disabled (some s) h = elim (Bool-cases (s == "disabled")) [
  | inl e ↦ absurd (h (ap some ((eq_iff s "disabled").0 e)))
  | inr e ↦ e
]

matches-InBoundary :
    (policy : Option String) (b : String) (facts : Facts)
    → matches_policy_boundary b facts policy ≡ true
    → InBoundary policy b facts
unfolding matches_policy_boundary
matches-InBoundary policy b facts h = (
  boundary_of policy "local" (λ e. let k = rw e at h in ground arith),
  boundary_of policy "free" (λ e. let k = rw e at h in ground arith),
)

inside : (s w : String) (b : Bool) → (some s ≢ some w) ⊎ (b ≡ true) → (not (s == w) || b) ≡ true
inside s w b (inr e) = rw e (ground arith)
inside s w b (inl n) = elim (Bool-cases (s == w)) [
  | inl e ↦ absurd (n (ap some ((eq_iff s w).0 e)))
  | inr e ↦ rw e refl
]

InBoundary-matches :
    (policy : Option String) (b : String) (facts : Facts)
    → InBoundary policy b facts
    → matches_policy_boundary b facts policy ≡ true
unfolding matches_policy_boundary
InBoundary-matches none b facts h = refl
InBoundary-matches (some s) b facts (l, f) = rw (inside s "local" _ l, inside s "free" _ f) refl

module _ (inventory : List String) (policy : Option String) where
  is_eligible-IsUsable :
      (r : Registered) → is_eligible inventory policy r ≡ true → IsUsable inventory policy r
  unfolding is_eligible
  is_eligible-IsUsable r h = record {
    enabled = named-eq r.status "enabled" (ground arith);
    provider_on = provider_disabled-other r.provider_status (ground arith);
    available = ground arith;
    boundary = matches-InBoundary policy r.binding r.facts (ground arith);
  }

  IsUsable-is_eligible :
      (r : Registered) → IsUsable inventory policy r → is_eligible inventory policy r ≡ true
  unfolding is_eligible
  IsUsable-is_eligible r u =
      rw
        (
          u.enabled,
          other-provider_disabled r.provider_status u.provider_on,
          u.available,
          InBoundary-matches policy r.binding r.facts u.boundary,
        )
        refl

  abbrev usable_bindings : List Registered → List String
  usable_bindings registry = bindings_of (select (is_eligible inventory policy) registry)

  -- A usable record with this binding.
  abbrev pub HasRecord : List Registered → String → Type 0
  HasRecord registry b =
      (r : Registered) × In r registry × (r.binding ≡ b) × IsUsable inventory policy r

  usable_bindings-HasRecord :
      (registry : List Registered) (b : String)
      → includes (usable_bindings registry) b ≡ true
      → HasRecord registry b
  unfolding includes
  usable_bindings-HasRecord [] b h = cc
  usable_bindings-HasRecord (r ∷ rs) b h = elim (Bool-cases (is_eligible inventory policy r)) [
    | inl e ↦
        let h1 = rw e at h in
        elim (Bool-cases (r.binding == b)) [
          | inl k ↦ (r, inl refl, (eq_iff r.binding b).0 k, is_eligible-IsUsable r e)
          | inr k ↦ later (usable_bindings-HasRecord rs b (rw k at h1))
        ]
    | inr e ↦ later (usable_bindings-HasRecord rs b (rw e at h))
  ]
    where
      later : HasRecord rs b → HasRecord (r ∷ rs) b
      later (q, there, same, u) = (q, inr there, same, u)

  usable_bindings_complete :
      (registry : List Registered) (r : Registered)
      → In r registry
      → IsUsable inventory policy r
      → includes (usable_bindings registry) r.binding ≡ true
  unfolding includes
  usable_bindings_complete [] r (h) u = absurd h
  usable_bindings_complete (q ∷ rs) r (inl e) u =
      rw (sym e) (rw (IsUsable-is_eligible r u) (rw (eq_refl r.binding) refl))
  usable_bindings_complete (q ∷ rs) r (inr h) u =
      let rest = usable_bindings_complete rs r h u in
      elim (Bool-cases (is_eligible inventory policy q)) [
        | inl e ↦ rw e (ground arith)
        | inr e ↦ rw e rest
      ]

Within-All :
    (P : String → Type 0) (xs ys : List String)
    → ((b : String) → includes ys b ≡ true → P b)
    → Within xs ys
    → All P xs
Within-All P [] ys f h = tt
Within-All P (x ∷ xs) ys f (p, h) = (f x p, Within-All P xs ys f h)

auto_pool-eq :
    (pool : Pool) (registry : List Registered) (inventory : List String) {p : Pool}
    → selection_mode pool ≡ auto
    → materialize_auto_pool pool registry (some inventory) ≡ ok p
    → auto_pool pool registry inventory ≡ p
unfolding materialize_in
auto_pool-eq pool registry inventory mode h =
    ok_injective (sym (ap (λ m. materialize_in m pool registry (some inventory)) mode) ∙ h)

-- Each model of an auto pool that is materialized has a record in the registry that is enabled, with a
-- provider that is not disabled, in the inventory and inside the policy's boundary; the models that the
-- pool itself named stand first.
pub materialize-models :
    (pool : Pool) (registry : List Registered) (inventory : List String) {p : Pool}
    → selection_mode pool ≡ auto
    → materialize_auto_pool pool registry (some inventory) ≡ ok p
    → All (HasRecord inventory pool.selection_policy registry) (listed_models p.models)
      × ((rest : List String) × (listed_models p.models ≡ p.auto_preferences ++ rest))
      × Within p.auto_preferences (listed_models pool.models)
unfolding auto_pool preferred_among auto_models
materialize-models pool registry inventory mode h =
    let own = usable_bindings inventory pool.selection_policy registry in
    subst
      (λ (q : Pool).
        All (HasRecord inventory pool.selection_policy registry) (listed_models q.models)
        × ((rest : List String) × (listed_models q.models ≡ q.auto_preferences ++ rest))
        × Within q.auto_preferences (listed_models pool.models))
      (auto_pool-eq pool registry inventory mode h)
      (
        Within-All _ _ own (usable_bindings-HasRecord inventory pool.selection_policy registry) (
            auto_models_sound (select (includes own) (listed_models pool.models)) own
              (select-All (includes own) _)),
        (_, refl),
        select-Within (includes own) (listed_models pool.models),
      )

-- No such record is left out: its model is among those of the materialized pool, and in the part that
-- stands first if the pool itself named it.
pub materialize_complete :
    (pool : Pool) (registry : List Registered) (inventory : List String) (r : Registered) {p : Pool}
    → selection_mode pool ≡ auto
    → materialize_auto_pool pool registry (some inventory) ≡ ok p
    → In r registry
    → IsUsable inventory pool.selection_policy r
    → (includes (listed_models p.models) r.binding ≡ true)
      × ((includes (listed_models pool.models) r.binding ≡ false)
          ⊎ (includes p.auto_preferences r.binding ≡ true))
unfolding auto_pool preferred_among
materialize_complete pool registry inventory r mode h here u =
    let own = usable_bindings inventory pool.selection_policy registry in
    let there = usable_bindings_complete inventory pool.selection_policy registry r here u in
    subst
      (λ (q : Pool).
        (includes (listed_models q.models) r.binding ≡ true)
        × ((includes (listed_models pool.models) r.binding ≡ false)
            ⊎ (includes q.auto_preferences r.binding ≡ true)))
      (auto_pool-eq pool registry inventory mode h)
      (
        Within-includes own (auto_models (select (includes own) (listed_models pool.models)) own)
            r.binding
            (auto_models_complete (select (includes own) (listed_models pool.models)) own own
              (Within-refl own))
            there,
        elim (Bool-cases (includes (listed_models pool.models) r.binding)) [
          | inl e ↦
              inr (includes-select (includes own) (listed_models pool.models) r.binding e there)
          | inr e ↦ inl e
        ],
      )
