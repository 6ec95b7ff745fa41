-- ===== src/Base/Distinct.antt =====
-- Lists without repetition: `new Set`, sorting, and doing both twice.
use mathlib.Core.Path.{◌≡◌, refl, ap, ◌∙◌}
use mathlib.Core.Bool.{Bool, false}
use mathlib.Core.List.{List, [], ◌∷◌}
use mathlib.Core.Logic.{inl, inr}
use Prim.Native.String.{String}
use native.Mathlib.Omega.{arith}
use text.Mathlib.Text.{◌==◌}
use text.Mathlib.TextEquality.{eq_iff}
use next_level_agent.Base.Tests.{Bool-cases}
use next_level_agent.Base.Lists.{All}
use next_level_agent.Base.Order.{insert_sorted, sort_by}
use next_level_agent.Base.Sorting.{IsChain, includes-insert_sorted, includes-sort_by}
use next_level_agent.Base.Texts.{includes, dedupe}

abbrev pub Distinct : List String → Type 0
Distinct [] = Unit
Distinct (x ∷ xs) = (includes xs x ≡ false) × Distinct xs

-- None of the texts is one of `seen`.
abbrev pub Avoids : List String → List String → Type 0
Avoids seen xs = All (λ x. includes seen x ≡ false) xs

eq-swap : (a b : String) → (a == b) ≡ false → (b == a) ≡ false
eq-swap a b h = ground (arith, eq_iff a b, eq_iff b a)

includes-Avoids :
    (x : String) (seen xs : List String) → Avoids (x ∷ seen) xs → includes xs x ≡ false
unfolding includes
includes-Avoids x seen [] h = refl
includes-Avoids x seen (y ∷ ys) (p, h) =
    rw (eq-swap x y (ground arith), includes-Avoids x seen ys h) refl

Avoids-cons :
    (x : String) (seen xs : List String)
    → Avoids seen xs
    → includes xs x ≡ false
    → Avoids (x ∷ seen) xs
unfolding includes
Avoids-cons x seen [] h k = tt
Avoids-cons x seen (y ∷ ys) (p, h) k =
    (rw (eq-swap y x (ground arith), p) refl, Avoids-cons x seen ys h (ground arith))

Avoids-tail : (x : String) (seen xs : List String) → Avoids (x ∷ seen) xs → Avoids seen xs
unfolding includes
Avoids-tail x seen [] h = tt
Avoids-tail x seen (y ∷ ys) (p, h) = (ground arith, Avoids-tail x seen ys h)

pub dedupe-Avoids : (seen xs : List String) → Avoids seen (dedupe seen xs)
unfolding dedupe
dedupe-Avoids seen [] = tt
dedupe-Avoids seen (x ∷ xs) = elim (Bool-cases (includes seen x)) [
  | inl e ↦ rw e (dedupe-Avoids seen xs)
  | inr e ↦ rw e (e, Avoids-tail x seen _ (dedupe-Avoids (x ∷ seen) xs))
]

pub dedupe-Distinct : (seen xs : List String) → Distinct (dedupe seen xs)
unfolding dedupe
dedupe-Distinct seen [] = tt
dedupe-Distinct seen (x ∷ xs) = elim (Bool-cases (includes seen x)) [
  | inl e ↦ rw e (dedupe-Distinct seen xs)
  | inr e ↦
      rw e (includes-Avoids x seen _ (dedupe-Avoids (x ∷ seen) xs), dedupe-Distinct (x ∷ seen) xs)
]

-- A list without repetition has nothing to drop.
pub dedupe-eq : (seen xs : List String) → Avoids seen xs → Distinct xs → dedupe seen xs ≡ xs
unfolding dedupe
dedupe-eq seen [] h k = refl
dedupe-eq seen (x ∷ xs) (p, h) (n, k) =
    rw p (ap (◌∷◌ x) (dedupe-eq (x ∷ seen) xs (Avoids-cons x seen xs h n) k))

Avoids-nil : (xs : List String) → Avoids [] xs
unfolding includes
Avoids-nil [] = tt
Avoids-nil (x ∷ xs) = (refl, Avoids-nil xs)

cons_apart :
    (x y : String) (ys : List String)
    → includes (y ∷ ys) x ≡ false
    → ((x == y) ≡ false) × (includes ys x ≡ false)
unfolding includes
cons_apart x y ys h = (eq-swap y x (ground arith), ground arith)

module _ (le : String → String → Bool) where
  insert_sorted-Distinct :
      (x : String) (ys : List String)
      → includes ys x ≡ false
      → Distinct ys
      → Distinct (insert_sorted le x ys)
  unfolding insert_sorted
  insert_sorted-Distinct x [] n h = (n, tt)
  insert_sorted-Distinct x (y ∷ ys) n (m, h) = elim (Bool-cases (le x y)) [
    | inl e ↦ rw e (n, (m, h))
    | inr e ↦
        let (apart, absent) = cons_apart x y ys n in
        rw e (
          includes-insert_sorted le x ys y ∙ rw (apart, m) refl,
          insert_sorted-Distinct x ys absent h,
        )
  ]

  pub sort_by-Distinct : (xs : List String) → Distinct xs → Distinct (sort_by le xs)
  unfolding sort_by
  sort_by-Distinct [] h = tt
  sort_by-Distinct (x ∷ xs) (n, h) =
      insert_sorted-Distinct x (sort_by le xs) (includes-sort_by le xs x ∙ n)
        (sort_by-Distinct xs h)

pub sort_by-eq {ℓ} :
    {A : Type ℓ} (le : A → A → Bool) (xs : List A) → IsChain le xs → sort_by le xs ≡ xs
unfolding sort_by insert_sorted
sort_by-eq le [] h = refl
sort_by-eq le (x ∷ []) h = refl
sort_by-eq le (x ∷ (y ∷ ys)) (p, h) = ap (insert_sorted le x) (sort_by-eq le (y ∷ ys) h) ∙ rw p refl

-- Sorting the distinct texts of a list a second time changes nothing.
pub sort_by-unique_again :
    (le : String → String → Bool) (xs : List String)
    → IsChain le (sort_by le (dedupe [] xs))
    → sort_by le (dedupe [] (sort_by le (dedupe [] xs))) ≡ sort_by le (dedupe [] xs)
sort_by-unique_again le xs h =
    ap (sort_by le) (dedupe-eq [] _ (Avoids-nil _) (sort_by-Distinct le _ (dedupe-Distinct [] xs)))
    ∙ sort_by-eq le _ h
