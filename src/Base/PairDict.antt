-- ===== src/Base/PairDict.antt =====
-- JavaScript's `Map` whose keys are texts of two parts, in the order of insertion.
use Prim.Native.Nat.{ℕ}
use mathlib.Core.Path.{◌≡◌, refl}
use mathlib.Core.Bool.{Bool, ◌&&◌}
use mathlib.Core.Option.{Option, none, some}
use mathlib.Core.List.{List, [], ◌∷◌}
use native.Mathlib.Omega.{arith}
use tradermarket.Base.Tests.{◌==◌, if◌then◌else◌}

abbrev pub PairDict {ℓ} : (Value : Type ℓ) → Type ℓ
PairDict Value = List ((ℕ × ℕ) × Value)

abbrev pub same_pair : ℕ × ℕ → ℕ × ℕ → Bool
same_pair (a, b) (c, d) = a == c && b == d

module _ {ℓ} {Value : Type ℓ} where
  abbrev pub lookup_pair : ℕ × ℕ → PairDict Value → Option Value
  lookup_pair key [] = none
  lookup_pair key ((first, value) ∷ rest) =
      if same_pair first key then some value else lookup_pair key rest

  abbrev pub insert_pair : ℕ × ℕ → Value → PairDict Value → PairDict Value
  insert_pair key value [] = (key, value) ∷ []
  insert_pair key value ((first, old) ∷ rest) =
      let after = insert_pair key value rest in
      if same_pair first key then (first, value) ∷ rest else (first, old) ∷ after

  pub lookup_pair-insert_pair :
      (key other : ℕ × ℕ) (value : Value) (entries : PairDict Value)
      → lookup_pair other (insert_pair key value entries)
        ≡ (if same_pair key other then some value else lookup_pair other entries)
  lookup_pair-insert_pair (a, b) (c, d) value [] = refl
  lookup_pair-insert_pair (a, b) (c, d) value (((e, f), old) ∷ rest) =
      ground (arith, lookup_pair-insert_pair (a, b) (c, d) value rest)
