-- ===== src/Base/Dict.antt =====
-- JavaScript's `Map` with numbers for keys, in the order of insertion.
use Prim.Native.Nat.{ℕ}
use mathlib.Core.Path.{◌≡◌, refl}
use mathlib.Core.Option.{Option, none, some}
use mathlib.Core.List.{List, [], ◌∷◌}
use native.Mathlib.Omega.{arith}
use tradermarket.Base.Tests.{◌==◌, if◌then◌else◌}

abbrev pub Dict {ℓ} : (Value : Type ℓ) → Type ℓ
Dict Value = List (ℕ × Value)

module _ {ℓ} {Value : Type ℓ} where
  -- `map.get(key)`
  abbrev pub lookup : ℕ → Dict Value → Option Value
  lookup key [] = none
  lookup key ((first, value) ∷ rest) = if first == key then some value else lookup key rest

  -- `map.set(key, value)`, which keeps the place of a key that is there
  abbrev pub insert : ℕ → Value → Dict Value → Dict Value
  insert key value [] = (key, value) ∷ []
  insert key value ((first, old) ∷ rest) =
      let after = insert key value rest in
      if first == key then (first, value) ∷ rest else (first, old) ∷ after

  pub lookup-insert :
      (key other : ℕ) (value : Value) (entries : Dict Value)
      → lookup other (insert key value entries)
        ≡ (if key == other then some value else lookup other entries)
  lookup-insert key other value [] = refl
  lookup-insert key other value ((first, old) ∷ rest) =
      ground (arith, lookup-insert key other value rest)
