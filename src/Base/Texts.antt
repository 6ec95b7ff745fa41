-- ===== src/Base/Texts.antt =====
-- Lists of texts as the source tests them: `includes`, `new Set`, and filters by membership.
use next_level_agent.Base.Lists.{all, select, take, All}
use next_level_agent.Base.Tests.{if◌then◌else◌, Bool-cases}
use text.Mathlib.TextPositions.{eq_refl}
use text.Mathlib.TextEquality.{eq_iff}
use text.Mathlib.Text.{◌==◌}
use Prim.Native.Nat.{ℕ, zero, suc}
use Prim.Native.String.{String}
use native.Mathlib.Omega.{arith}
use mathlib.Core.Logic.{inl, inr}
use mathlib.Core.List.{List, [], ◌∷◌}
use mathlib.Core.Bool.{Bool, true, false, ◌||◌, ◌&&◌}
use mathlib.Core.Path.{◌≡◌, refl}

-- xs.includes(s)
unfoldable pub includes : List String → String → Bool
includes [] s = false
includes (x ∷ xs) s = x == s || includes xs s

-- [...new Set(xs)]: the first occurrence of each text stays.
unfoldable pub dedupe : List String → List String → List String
unfolding includes
dedupe seen [] = []
dedupe seen (x ∷ xs) =
    let skipped = dedupe seen xs in
    let kept = x ∷ dedupe (x ∷ seen) xs in if includes seen x then skipped else kept

abbrev pub unique : List String → List String
unique xs = dedupe [] xs

-- Every text of `xs` is one of `ys`.
abbrev pub Within : List String → List String → Type 0
Within xs ys = All (λ x. includes ys x ≡ true) xs

pub Within-cons : (xs ys : List String) (y : String) → Within xs ys → Within xs (y ∷ ys)
Within-cons [] ys y h = tt
Within-cons (x ∷ xs) ys y (p, h) = (unfold includes in ground arith, Within-cons xs ys y h)

pub Within-refl : (xs : List String) → Within xs xs
unfolding includes
Within-refl [] = tt
Within-refl (x ∷ xs) = (rw (eq_refl x), Within-cons xs xs x (Within-refl xs))

pub select-Within : (p : String → Bool) (xs : List String) → Within (select p xs) xs
select-Within p [] = tt
select-Within p (x ∷ xs) = elim (Bool-cases (p x)) [
  | inl e ↦
      rw e (unfold includes in rw (eq_refl x), Within-cons (select p xs) xs x (select-Within p xs))
  | inr e ↦ rw e (Within-cons (select p xs) xs x (select-Within p xs))
]

pub take-Within : (n : ℕ) (xs ys : List String) → Within xs ys → Within (take n xs) ys
take-Within zero xs ys h = tt
take-Within (suc n) [] ys h = tt
take-Within (suc n) (x ∷ xs) ys (p, h) = (p, take-Within n xs ys h)

-- A text that passes the test and stands in the list is selected.
pub includes-select :
    (p : String → Bool) (xs : List String) (s : String)
    → includes xs s ≡ true
    → p s ≡ true
    → includes (select p xs) s ≡ true
unfolding includes
includes-select p [] s h q = h
includes-select p (x ∷ xs) s h q = ground (arith, eq_iff x s, includes-select p xs s)

pub includes-select_test :
    (p : String → Bool) (xs : List String) (s : String)
    → includes (select p xs) s ≡ true
    → p s ≡ true
unfolding includes
includes-select_test p [] s h = cc
includes-select_test p (x ∷ xs) s h = ground (arith, eq_iff x s, includes-select_test p xs s)

-- xs.every(x => ys.includes(x)), read back
pub all-Within : (xs ys : List String) → all (includes ys) xs ≡ true → Within xs ys
all-Within [] ys h = tt
all-Within (x ∷ xs) ys h = (ground arith, all-Within xs ys (ground arith))

pub Within-includes :
    (xs ys : List String) (s : String) → Within xs ys → includes xs s ≡ true → includes ys s ≡ true
unfolding includes
Within-includes [] ys s h q = cc
Within-includes (x ∷ xs) ys s (p, h) q = ground (arith, eq_iff x s, Within-includes xs ys s h)

pub Within-trans : (xs ys zs : List String) → Within xs ys → Within ys zs → Within xs zs
Within-trans [] ys zs h k = tt
Within-trans (x ∷ xs) ys zs (p, h) k = (Within-includes ys zs x k p, Within-trans xs ys zs h k)

unfoldable pub same_texts : List String → List String → Bool
same_texts [] [] = true
same_texts [] (y ∷ ys) = false
same_texts (x ∷ xs) [] = false
same_texts (x ∷ xs) (y ∷ ys) = x == y && same_texts xs ys

pub same_texts-eq : (xs ys : List String) → same_texts xs ys ≡ true → xs ≡ ys
unfolding same_texts
same_texts-eq [] [] h = refl
same_texts-eq [] (y ∷ ys) h = cc
same_texts-eq (x ∷ xs) [] h = cc
same_texts-eq (x ∷ xs) (y ∷ ys) h = ground (arith, eq_iff x y, same_texts-eq xs ys)

pub same_texts_refl : (xs : List String) → same_texts xs xs ≡ true
unfolding same_texts
same_texts_refl [] = refl
same_texts_refl (x ∷ xs) = rw (eq_refl x) (same_texts_refl xs)
