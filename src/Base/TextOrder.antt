-- ===== src/Base/TextOrder.antt =====
-- The order of texts that `sort()` without a comparator uses. It is by code points, and the source's
-- by UTF-16 units: they agree on texts without astral characters, such as ids and bindings.
use Prim.Native.Nat.{Ordering, compare as compare_ℕ}
use Prim.Native.Char.{code}
use Prim.Native.String.compare
use Prim.Native.String.{String, [], ◌∷◌, compare, then}
use mathlib.Core.Path.{◌≡◌, refl, sym, ap, ap₂, ◌∙◌}
use mathlib.Core.Bool.{Bool, true, false}
use text.Mathlib.Text.{is_le}
use native.Mathlib.Omega.{arith}

abbrev pub text_le : String → String → Bool
text_le a b = is_le (compare a b)

flip : Ordering → Ordering
flip Ordering.lt = Ordering.gt
flip Ordering.eq = Ordering.eq
flip Ordering.gt = Ordering.lt

numbers_flip : (m n : Prim.Native.Nat.ℕ) → compare_ℕ n m ≡ flip (compare_ℕ m n)
unfolding flip
numbers_flip m n = ground arith

then-flip : (o r : Ordering) → then (flip o) (flip r) ≡ flip (then o r)
unfolding flip
then-flip Ordering.lt r = refl
then-flip Ordering.eq r = refl
then-flip Ordering.gt r = refl

texts_flip : (s t : String) → compare t s ≡ flip (compare s t)
unfolding flip
texts_flip [] [] = refl
texts_flip [] (d ∷ t) = compare.cons-nil d t ∙ sym (ap flip (compare.nil-cons d t))
texts_flip (c ∷ s) [] = compare.nil-cons c s ∙ sym (ap flip (compare.cons-nil c s))
texts_flip (c ∷ s) (d ∷ t) =
    compare.cons-cons d c t s
    ∙ ap₂ then (numbers_flip (code c) (code d)) (texts_flip s t)
    ∙ then-flip _ _
    ∙ sym (ap flip (compare.cons-cons c d s t))

le_of_flip : (o : Ordering) → is_le o ≡ false → is_le (flip o) ≡ true
unfolding flip
le_of_flip Ordering.lt h = cc
le_of_flip Ordering.eq h = cc
le_of_flip Ordering.gt h = refl

pub text_connex : (s t : String) → text_le s t ≡ false → text_le t s ≡ true
text_connex s t h = ap is_le (texts_flip s t) ∙ le_of_flip (compare s t) h
