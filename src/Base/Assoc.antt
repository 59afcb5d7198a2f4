-- ===== src/Base/Assoc.antt =====
-- `std::unordered_map` from a 64-bit id, as an association list: one entry for each key, in the
-- order in which an iteration meets them.
use Prim.Native.Nat.{ℕ}
use mathlib.Core.Option.{Option, none, some}
use mathlib.Core.List.{List, [], ◌∷◌}
use mathlib.Core.Path.{◌≡◌}
use native.Mathlib.Omega.{arith}
use quicsend.Base.Tests.{◌==◌, if◌then◌else◌}

module _ {ℓ} {V : Type ℓ} where
  -- `m.find(key)`.
  unfoldable pub lookup : ℕ → List (ℕ × V) → Option V
  lookup key [] = none
  lookup key ((id, value) ∷ entries) = if id == key then some value else lookup key entries

  -- `m[key] = value`.
  unfoldable pub insert : ℕ → V → List (ℕ × V) → List (ℕ × V)
  insert key value [] = (key, value) ∷ []
  insert key value ((id, old) ∷ entries) =
      if id == key then (id, value) ∷ entries else (id, old) ∷ insert key value entries

  -- `m.erase(key)`, which does nothing where the key is missing.
  unfoldable pub erase : ℕ → List (ℕ × V) → List (ℕ × V)
  erase key [] = []
  erase key ((id, value) ∷ entries) =
      if id == key then erase key entries else (id, value) ∷ erase key entries

  -- An insertion shows under its key alone.
  pub lookup-insert :
      (key other : ℕ) (value : V) (entries : List (ℕ × V))
      → lookup other (insert key value entries)
        ≡ (if other == key then some value else lookup other entries)
  unfolding lookup insert
  lookup-insert key other value [] = ground arith
  lookup-insert key other value ((id, old) ∷ entries) =
      ground (arith, lookup-insert key other value entries)

  -- So does an erasure.
  pub lookup-erase :
      (key other : ℕ) (entries : List (ℕ × V))
      → lookup other (erase key entries) ≡ (if other == key then none else lookup other entries)
  unfolding lookup erase
  lookup-erase key other [] = ground arith
  lookup-erase key other ((id, value) ∷ entries) = ground (arith, lookup-erase key other entries)
