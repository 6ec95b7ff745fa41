-- ===== src/Base/Assoc.antt =====
-- A JavaScript `Map` or plain object with text keys: an association list in insertion order.
use next_level_agent.Base.Tests.{if◌then◌else◌}
use text.Mathlib.TextPositions.{eq_refl}
use mathlib.Core.Option.{Option, none, some}
use text.Mathlib.TextEquality.{eq_iff}
use mathlib.Core.List.{List, [], ◌∷◌}
use native.Mathlib.Omega.{arith}
use text.Mathlib.Text.{◌==◌}
use mathlib.Core.Path.{◌≡◌, refl}
use Prim.Native.String.{String}

abbrev pub Dict {ℓ} : Type ℓ → Type ℓ
Dict V = List (String × V)

module _ {ℓ} {V : Type ℓ} where
  -- m.get(key)
  unfoldable pub lookup : String → Dict V → Option V
  lookup key [] = none
  lookup key ((k, held) ∷ rest) = if k == key then some held else lookup key rest

  -- m.set(key, new): in place where the key is there, at the end otherwise
  unfoldable pub insert : String → V → Dict V → Dict V
  insert key new [] = (key, new) ∷ []
  insert key new ((k, held) ∷ rest) =
      if k == key then (k, new) ∷ rest else (k, held) ∷ insert key new rest

  -- m.delete(k)
  unfoldable pub erase : String → Dict V → Dict V
  erase k [] = []
  erase k ((j, v) ∷ m) = let rest = erase k m in if j == k then rest else (j, v) ∷ rest

  pub lookup-insert :
      (key asked : String) (new : V) (m : Dict V)
      → lookup asked (insert key new m) ≡ (if key == asked then some new else lookup asked m)
  unfolding lookup insert
  lookup-insert key asked new [] = refl
  lookup-insert key asked new ((k, held) ∷ rest) =
      ground
        (arith, lookup-insert key asked new rest, eq_iff k asked, eq_iff k key, eq_iff key asked)

  pub lookup-erase :
      (k j : String) (m : Dict V) → lookup j (erase k m) ≡ (if k == j then none else lookup j m)
  unfolding lookup erase
  lookup-erase k j [] = ground arith
  lookup-erase k j ((i, w) ∷ m) =
      ground (arith, lookup-erase k j m, eq_iff i k, eq_iff i j, eq_iff k j)

  pub erase-eq_of_none : (k : String) (m : Dict V) → lookup k m ≡ none → erase k m ≡ m
  unfolding lookup erase
  erase-eq_of_none k [] h = refl
  erase-eq_of_none k ((i, w) ∷ m) h = ground (arith, erase-eq_of_none k m)

  -- Writing a new key and deleting it gives the map back.
  pub erase-insert_new :
      (k : String) (v : V) (m : Dict V) → lookup k m ≡ none → erase k (insert k v m) ≡ m
  unfolding lookup insert erase
  erase-insert_new k v [] h = rw (eq_refl k)
  erase-insert_new k v ((i, w) ∷ m) h = ground (arith, erase-insert_new k v m)

  -- Overwriting a key and writing the old value back gives the map back.
  pub insert-insert_old :
      (k : String) (v w : V) (m : Dict V) → lookup k m ≡ some v → insert k v (insert k w m) ≡ m
  unfolding lookup insert
  insert-insert_old k v w [] h = ground arith
  insert-insert_old k v w ((i, u) ∷ m) h = ground (arith, insert-insert_old k v w m)

  pub lookup-insert_self :
      (key : String) (new : V) (m : Dict V) → lookup key (insert key new m) ≡ some new
  lookup-insert_self key new m = rw (lookup-insert key key new m, eq_refl key)

  pub lookup-erase_self : (k : String) (m : Dict V) → lookup k (erase k m) ≡ none
  lookup-erase_self k m = rw (lookup-erase k k m, eq_refl k)
