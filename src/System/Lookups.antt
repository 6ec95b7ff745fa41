-- ===== src/System/Lookups.antt =====
-- nla-system-database.mjs: looking up a row after a write.
use next_level_agent.Base.{
  String, Bool, true, false, not, ◌||◌, ◌≡◌, refl, sym, ap, ◌∙◌, Option, none, some, Dict, lookup,
  insert, lookup-insert, lookup-insert_self, ◌==◌, eq_iff, eq_refl, if◌then◌else◌, Bool-cases,
  Option-cases, inl, inr, arith,
}
use next_level_agent.System.Database.{exists_in, insert_or_ignore, update}

no_value_apart {ℓ} : {V : Type ℓ} (v : V) → ◌≡◌ {A = Option V} none (some v) → ⊥
no_value_apart v h = cc

some_injective {ℓ} : {V : Type ℓ} (a b : V) → some a ≡ some b → a ≡ b
some_injective a b h = cc

module _ {ℓ} {V : Type ℓ} (key asked : String) (f : V → V) (table : Dict V) where
  updated_from :
      (found : Option V) (v : V)
      → lookup key table ≡ found
      → lookup asked table ≡ some v
      → lookup asked (elim found [ none ↦ table | some held ↦ insert key (f held) table ])
        ≡ some (if key == asked then f v else v)
  updated_from none v e h = elim (Bool-cases (key == asked)) [
    | inl same ↦
        absurd (no_value_apart v (sym e ∙ ap (λ k. lookup k table) ((eq_iff key asked).0 same) ∙ h))
    | inr other ↦ rw other h
  ]
  updated_from (some held) v e h = elim (Bool-cases (key == asked)) [
    | inl same ↦
        let known : some held ≡ some v =
          sym e ∙ ap (λ k. lookup k table) ((eq_iff key asked).0 same) ∙ h in
        rw (lookup-insert key asked (f held) table, same)
          (ap (λ o. some (f o)) (some_injective held v known))
    | inr other ↦ rw (lookup-insert key asked (f held) table, other) h
  ]

  pub lookup-update :
      (v : V)
      → lookup asked table ≡ some v
      → lookup asked (update key f table) ≡ some (if key == asked then f v else v)
  unfolding update
  lookup-update v h = updated_from (lookup key table) v refl h

pub lookup-ignored {ℓ} :
    {V : Type ℓ} (key asked : String) (w : V) (table : Dict V) (v : V)
    → lookup asked table ≡ some v
    → lookup asked (insert_or_ignore key w table) ≡ some v
unfolding insert_or_ignore
lookup-ignored key asked w table v h =
    ground (arith, lookup-insert key asked w table, eq_iff key asked)

pub exists_in-insert_or_ignore :
    {V : Type 0} (key asked : String) (v : V) (table : Dict V)
    → exists_in asked table ≡ true
    → exists_in asked (insert_or_ignore key v table) ≡ true
unfolding exists_in insert_or_ignore
exists_in-insert_or_ignore key asked v table h = ground (arith, lookup-insert key asked v table)

pub exists_in-insert_or_ignore_self :
    {V : Type 0} (key : String) (v : V) (table : Dict V)
    → exists_in key (insert_or_ignore key v table) ≡ true
unfolding exists_in insert_or_ignore
exists_in-insert_or_ignore_self key v table =
    ground (arith, lookup-insert key key v table, eq_refl key)

pub exists_in-insert :
    {V : Type 0} (key asked : String) (v : V) (table : Dict V)
    → exists_in asked table ≡ true
    → exists_in asked (insert key v table) ≡ true
unfolding exists_in
exists_in-insert key asked v table h = ground (arith, lookup-insert key asked v table)

pub exists_in-update :
    {V : Type 0} (key asked : String) (f : V → V) (table : Dict V)
    → exists_in asked table ≡ true
    → exists_in asked (update key f table) ≡ true
unfolding update
exists_in-update key asked f table h =
    elim (lookup key table)
      as (λ found.
        exists_in asked (elim found [ none ↦ table | some held ↦ insert key (f held) table ])
        ≡ true) [ none ↦ h | some held ↦ exists_in-insert key asked (f held) table h ]

pub lookup-new :
    {V : Type 0} (key asked : String) (v w : V) (table : Dict V)
    → exists_in key table ≡ false
    → lookup asked table ≡ some v
    → lookup asked (insert key w table) ≡ some v
unfolding exists_in
lookup-new key asked v w table fresh h =
    ground (arith, lookup-insert key asked w table, eq_iff key asked)

pub lookup-update_other :
    {V : Type 0} (key asked : String) (f : V → V) (table : Dict V)
    → (key == asked) ≡ false
    → lookup asked (update key f table) ≡ lookup asked table
unfolding update
lookup-update_other key asked f table h =
    elim (lookup key table)
      as (λ found.
        lookup asked (elim found [ none ↦ table | some held ↦ insert key (f held) table ])
        ≡ lookup asked table) [
          | none ↦ refl
          | some held ↦ rw (lookup-insert key asked (f held) table, h) refl
        ]

pub neither : (a b : Bool) → (a || b) ≡ false → (a ≡ false) × (b ≡ false)
neither a b h = ground arith

pub exists_in-insert_self :
    {V : Type 0} (key : String) (v : V) (table : Dict V) → exists_in key (insert key v table) ≡ true
unfolding exists_in
exists_in-insert_self key v table = ground (arith, lookup-insert_self key v table)

pub exists_in-lookup :
    {V : Type 0} (key : String) (table : Dict V)
    → exists_in key table ≡ true
    → (v : V) × (lookup key table ≡ some v)
unfolding exists_in
exists_in-lookup key table h = elim (Option-cases (lookup key table)) [
  | inl e ↦ absurd (ground arith)
  | inr (v, e) ↦ (v, e)
]

pub not-false : (b : Bool) → not b ≡ false → b ≡ true
not-false b h = ground arith
