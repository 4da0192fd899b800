-- ===== src/Prelude/Map.antt =====
-- A Go map with numbered keys, as an association list. A new key goes to the end; the order of a
-- `range` loop is never read off the list but given to it.
use Prim.Native.Nat.{ℕ, suc, ◌≤◌}
use mathlib.Core.Path.{◌≡◌, refl}
use mathlib.Core.Option.{Option, none, some}
use mathlib.Core.List.{List, [], ◌∷◌}
use native.Mathlib.Omega.{arith}
use load_observatory.Prelude.Tests.{◌==◌, if◌then◌else◌}
use load_observatory.Prelude.Lists.{length}

module _ {V : Type 0} where
  unfoldable pub lookup : ℕ → List (ℕ × V) → Option V
  lookup key [] = none
  lookup key ((held, value) ∷ rest) = if held == key then some value else lookup key rest

  unfoldable pub insert : ℕ → V → List (ℕ × V) → List (ℕ × V)
  insert key value [] = (key, value) ∷ []
  insert key value ((held, old) ∷ rest) =
      if held == key then (key, value) ∷ rest else (held, old) ∷ insert key value rest

  unfoldable pub delete : ℕ → List (ℕ × V) → List (ℕ × V)
  delete k [] = []
  delete k ((j, w) ∷ m) = if j == k then delete k m else (j, w) ∷ delete k m

  -- Every value, rewritten in place.
  unfoldable pub update_all : (V → V) → List (ℕ × V) → List (ℕ × V)
  update_all f [] = []
  update_all f ((j, w) ∷ m) = (j, f w) ∷ update_all f m

  -- Reading a map after one write.
  pub lookup-insert :
      (written read : ℕ) (value : V) (entries : List (ℕ × V))
      → lookup read (insert written value entries)
        ≡ (if written == read then some value else lookup read entries)
  unfolding insert lookup
  lookup-insert written read value [] = refl
  lookup-insert written read value (entry ∷ rest) =
      ground (arith, lookup-insert written read value rest)

  pub lookup-delete :
      (k j : ℕ) (m : List (ℕ × V)) → lookup j (delete k m) ≡ (if k == j then none else lookup j m)
  unfolding lookup delete
  lookup-delete k j [] = ground arith
  lookup-delete k j ((i, w) ∷ m) = ground (arith, lookup-delete k j m)

  abbrev pub map_option : (V → V) → Option V → Option V
  map_option f none = none
  map_option f (some v) = some (f v)

  pub lookup-update_all :
      (f : V → V) (j : ℕ) (m : List (ℕ × V)) → lookup j (update_all f m) ≡ map_option f (lookup j m)
  unfolding lookup update_all
  lookup-update_all f j [] = refl
  lookup-update_all f j ((i, w) ∷ m) = ground (arith, lookup-update_all f j m)

  pub length-insert-le : (k : ℕ) (v : V) (m : List (ℕ × V)) → length (insert k v m) ≤ suc (length m)
  unfolding insert
  length-insert-le k v [] = omega arith
  length-insert-le k v ((i, w) ∷ m) = ground (arith, length-insert-le k v m)

pub ruleset map_laws = (lookup-insert, lookup-delete, lookup-update_all)
