-- ===== src/Base/Sorting.antt =====
-- What sorting and filtering keep of a list.
use mathlib.Core.Path.{◌≡◌, refl}
use mathlib.Core.Bool.{Bool, true, false, not, ◌||◌}
use native.Mathlib.Omega.{arith}
use text.Mathlib.Text.{◌==◌}
use Prim.Native.String.{String}
use next_level_agent.Base.Texts.{includes}
use mathlib.Core.List.{List, [], ◌∷◌, ◌++◌, map, Perm}
use mathlib.Core.List.Perm
use mathlib.Core.Logic.{inl, inr}
use next_level_agent.Base.Tests.{Bool-cases, if_either}
use next_level_agent.Base.Lists.{All, select}
use next_level_agent.Base.Order.{insert_sorted, sort_by}

pub select-All {ℓ} : {A : Type ℓ} (p : A → Bool) (xs : List A) → All (λ x. p x ≡ true) (select p xs)
select-All p [] = tt
select-All p (x ∷ xs) = elim (Bool-cases (p x)) [
  | inl e ↦ rw e (e, select-All p xs)
  | inr e ↦ rw e (select-All p xs)
]

pub All-select {ℓ κ} :
    {A : Type ℓ} (P : A → Type κ) (p : A → Bool) (xs : List A) → All P xs → All P (select p xs)
All-select P p [] h = tt
All-select P p (x ∷ xs) (px, h) =
    if_either (All P) (p x) (x ∷ select p xs) (select p xs) (px, All-select P p xs h)
      (All-select P p xs h)

move_front {ℓ} : {A : Type ℓ} (x : A) (xs ys : List A) → Perm (xs ++ (x ∷ ys)) (x ∷ (xs ++ ys))
move_front x [] ys = Perm.refl _
move_front x (y ∷ xs) ys = Perm.trans (Perm.cons y (move_front x xs ys)) (Perm.swap x y (xs ++ ys))

-- Both parts of a list, put one behind the other, are the list again up to order.
pub select-partition {ℓ} :
    {A : Type ℓ} (p : A → Bool) (xs : List A) → Perm (select p xs ++ select (λ x. not (p x)) xs) xs
select-partition p [] = Perm.refl _
select-partition p (x ∷ xs) = elim (Bool-cases (p x)) [
  | inl e ↦ rw e (Perm.cons x (select-partition p xs))
  | inr e ↦ rw e (Perm.trans (move_front x (select p xs) _) (Perm.cons x (select-partition p xs)))
]

pub All-map {ℓ κ} :
    {A B : Type ℓ} (P : B → Type κ) (f : A → B) (xs : List A)
    → All (λ x. P (f x)) xs
    → All P (map f xs)
All-map P f [] h = tt
All-map P f (x ∷ xs) (p, h) = (p, All-map P f xs h)

module _ {ℓ} {A : Type ℓ} (le : A → A → Bool) where
  -- Each element is at or before the next one.
  abbrev pub IsChain : List A → Type ℓ
  IsChain [] = Unit
  IsChain (x ∷ []) = Unit
  IsChain (x ∷ (y ∷ ys)) = (le x y ≡ true) × IsChain (y ∷ ys)

  module _ {κ} (P : A → Type κ) where
    insert_sorted-All : (x : A) (ys : List A) → P x → All P ys → All P (insert_sorted le x ys)
    unfolding insert_sorted
    insert_sorted-All x [] px h = (px, tt)
    insert_sorted-All x (y ∷ ys) px (py, h) =
        if_either (All P) (le x y) (x ∷ y ∷ ys) (y ∷ insert_sorted le x ys) (px, (py, h))
          (py, insert_sorted-All x ys px h)

    pub sort_by-All : (xs : List A) → All P xs → All P (sort_by le xs)
    unfolding sort_by
    sort_by-All [] h = tt
    sort_by-All (x ∷ xs) (p, h) = insert_sorted-All x (sort_by le xs) p (sort_by-All xs h)

  module _ (connex : (x y : A) → le x y ≡ false → le y x ≡ true) where
    insert_sorted-IsChain :
        (x y : A) (ys : List A)
        → le y x ≡ true
        → IsChain (y ∷ ys)
        → IsChain (y ∷ insert_sorted le x ys)
    unfolding insert_sorted
    insert_sorted-IsChain x y [] yx h = (yx, tt)
    insert_sorted-IsChain x y (z ∷ zs) yx (yz, h) = elim (Bool-cases (le x z)) [
      | inl e ↦ rw e (yx, (e, h))
      | inr e ↦ rw e (yz, insert_sorted-IsChain x z zs (connex x z e) h)
    ]

    insert_sorted-IsChain_first :
        (x : A) (ys : List A) → IsChain ys → IsChain (insert_sorted le x ys)
    unfolding insert_sorted
    insert_sorted-IsChain_first x [] h = tt
    insert_sorted-IsChain_first x (y ∷ ys) h = elim (Bool-cases (le x y)) [
      | inl e ↦ rw e (e, h)
      | inr e ↦ rw e (insert_sorted-IsChain x y ys (connex x y e) h)
    ]

    pub sort_by-IsChain : (xs : List A) → IsChain (sort_by le xs)
    unfolding sort_by
    sort_by-IsChain [] = tt
    sort_by-IsChain (x ∷ xs) = insert_sorted-IsChain_first x (sort_by le xs) (sort_by-IsChain xs)

-- The texts of a list's elements, sorted or parted.
module _ {ℓ} {A : Type ℓ} (f : A → String) where
  pub includes-map-append :
      (xs ys : List A) (s : String)
      → includes (map f (xs ++ ys)) s ≡ (includes (map f xs) s || includes (map f ys) s)
  unfolding includes
  includes-map-append [] ys s = refl
  includes-map-append (x ∷ xs) ys s = ground (arith, includes-map-append xs ys s)

  pub includes-map-select :
      (p : A → Bool) (xs : List A) (s : String)
      → includes (map f xs) s
        ≡ (includes (map f (select p xs)) s || includes (map f (select (λ x. not (p x)) xs)) s)
  unfolding includes
  includes-map-select p [] s = refl
  includes-map-select p (x ∷ xs) s = elim (Bool-cases (p x)) [
    | inl e ↦ rw e (ground (arith, includes-map-select p xs s))
    | inr e ↦ rw e (ground (arith, includes-map-select p xs s))
  ]

  module _ (le : A → A → Bool) where
    includes-map-insert_sorted :
        (x : A) (ys : List A) (s : String)
        → includes (map f (insert_sorted le x ys)) s ≡ (f x == s || includes (map f ys) s)
    unfolding includes insert_sorted
    includes-map-insert_sorted x [] s = refl
    includes-map-insert_sorted x (y ∷ ys) s = elim (Bool-cases (le x y)) [
      | inl e ↦ rw e refl
      | inr e ↦ rw (e, includes-map-insert_sorted x ys s) (ground arith)
    ]

    pub includes-map-sort_by :
        (xs : List A) (s : String) → includes (map f (sort_by le xs)) s ≡ includes (map f xs) s
    unfolding includes sort_by
    includes-map-sort_by [] s = refl
    includes-map-sort_by (x ∷ xs) s =
        rw (includes-map-insert_sorted x (sort_by le xs) s, includes-map-sort_by xs s) refl

-- Sorting keeps the texts of a list.
module _ (le : String → String → Bool) where
  pub includes-insert_sorted :
      (x : String) (ys : List String) (s : String)
      → includes (insert_sorted le x ys) s ≡ (x == s || includes ys s)
  unfolding includes insert_sorted
  includes-insert_sorted x [] s = refl
  includes-insert_sorted x (y ∷ ys) s = elim (Bool-cases (le x y)) [
    | inl e ↦ rw e refl
    | inr e ↦ rw (e, includes-insert_sorted x ys s) (ground arith)
  ]

  pub includes-sort_by :
      (xs : List String) (s : String) → includes (sort_by le xs) s ≡ includes xs s
  unfolding includes sort_by
  includes-sort_by [] s = refl
  includes-sort_by (x ∷ xs) s =
      rw (includes-insert_sorted x (sort_by le xs) s, includes-sort_by xs s) refl
