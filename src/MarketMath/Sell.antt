-- ===== src/MarketMath/Sell.antt =====
-- What a sale leaves in the pool (prototype/live-market-app/src/web3/marketMath.js, `quoteSell`).
use tradermarket.Base.{ℕ, ◌+◌, ◌-◌, ◌*◌, ◌/◌, ◌≤◌, ◌≡◌, sym, ap, subst, arith}
use native.Mathlib.Decide.{dec_le}
use native.Mathlib.Nat.{mul-le-mul_right}
use tradermarket.MarketMath.{sqrt_ceil, quote_sell_of}
use tradermarket.MarketMath.Sqrt.{mean, square-le, square-le_cancel, sqrt_ceil_root}

gap_over :
    (gap side i d : ℕ)
    → i ≤ gap + side
    → d + 4 * i * side ≡ (gap + side + side) * (gap + side + side)
    → gap * gap ≤ d
gap_over gap side i d h e = omega (arith, mul-le-mul_right {m = i} {n = gap + side} side h)

gap_under :
    (gap side i d : ℕ)
    → i ≤ side
    → d + 4 * i * (gap + side) ≡ (side + (gap + side)) * (side + (gap + side))
    → gap * gap ≤ d
gap_under gap side i d h e = omega (arith, mul-le-mul_right {m = i} {n = side} (gap + side) h)

-- What stays of the product when the same amount leaves both sides: `s` and `o` are what is left.
product_kept :
    (g s o i selected root d : ℕ)
    → selected + i ≡ g + s
    → d + 4 * i * (g + o) ≡ (g + s + (g + o)) * (g + s + (g + o))
    → d ≤ root * root
    → root ≤ s + o
    → selected * (g + o) ≤ s * o
product_kept g s o i selected root d e exact r w =
    omega (arith, square-le root (s + o) w, ap (λ (t : ℕ). t * (g + o)) e)

-- The bounds of one sale.
module _ (selected other positions_in : ℕ) where
  abbrev sum : ℕ
  sum = selected + positions_in + other

  abbrev discriminant : ℕ
  discriminant = sum * sum - 4 * positions_in * other

  discriminant_exact : discriminant + 4 * positions_in * other ≡ sum * sum
  discriminant_exact =
      omega (arith, mean positions_in other, square-le (positions_in + other) sum (omega arith))

  root-le-sum : sqrt_ceil discriminant ≤ sum
  root-le-sum = (sqrt_ceil_root discriminant).1 sum (omega arith)

  -- The root is at least the difference of the sides, either way round.
  gap_squared : (gap : ℕ) → (gap + other ≡ selected + positions_in) → gap * gap ≤ discriminant
  gap_squared gap h =
      rw (← h) (gap_over gap other positions_in _ (omega arith) (rw (← h) at discriminant_exact))

  discriminant_exact' :
      (gap : ℕ)
      → gap + (selected + positions_in) ≡ other
      → discriminant + 4 * positions_in * (gap + (selected + positions_in))
        ≡ (selected + positions_in + (gap + (selected + positions_in)))
          * (selected + positions_in + (gap + (selected + positions_in)))
  discriminant_exact' gap h =
      subst
        (λ (o : ℕ).
          discriminant + 4 * positions_in * o
          ≡ (selected + positions_in + o) * (selected + positions_in + o))
        (sym h) discriminant_exact

  gap_squared' : (gap : ℕ) → (gap + (selected + positions_in) ≡ other) → gap * gap ≤ discriminant
  gap_squared' gap h =
      gap_under gap (selected + positions_in) positions_in discriminant (omega arith)
        (discriminant_exact' gap h)

  gap-le-root : (gap : ℕ) → gap * gap ≤ discriminant → gap ≤ sqrt_ceil discriminant
  gap-le-root gap h =
      square-le_cancel gap (sqrt_ceil discriminant) (omega (arith, (sqrt_ceil_root discriminant).0))

  abbrev gross : ℕ
  gross = (sum - sqrt_ceil discriminant) / 2

  gross-le-other : gross ≤ other
  gross-le-other = elim (dec_le other (selected + positions_in)) [
    | yes p ↦ omega (
      arith,
      root-le-sum,
      gap-le-root (selected + positions_in - other)
          (gap_squared (selected + positions_in - other) (omega arith)),
    )
    | no p ↦ omega (arith, root-le-sum)
  ]

  gross-le-selected : gross ≤ selected + positions_in
  gross-le-selected = elim (dec_le other (selected + positions_in)) [
    | yes p ↦ omega (arith, root-le-sum)
    | no p ↦ omega (
      arith,
      root-le-sum,
      gap-le-root (other - (selected + positions_in))
          (gap_squared' (other - (selected + positions_in)) (omega arith)),
    )
  ]

  exact_parts :
      (g s o : ℕ)
      → g + o ≡ other
      → g + s ≡ selected + positions_in
      → discriminant + 4 * positions_in * (g + o) ≡ (g + s + (g + o)) * (g + s + (g + o))
  exact_parts g s o h k = simp (h, k, discriminant_exact)

  product_after : selected * other ≤ (selected + positions_in - gross) * (other - gross)
  product_after =
      let back : gross + (other - gross) ≡ other = omega (arith, gross-le-other) in
      let back' : gross + (selected + positions_in - gross) ≡ selected + positions_in =
        omega (arith, gross-le-selected) in
      rw back at (
        product_kept gross (selected + positions_in - gross) (other - gross) positions_in selected
          (sqrt_ceil discriminant) discriminant (sym back')
          (exact_parts gross (selected + positions_in - gross) (other - gross) back back')
          (sqrt_ceil_root discriminant).0
          (omega (arith, root-le-sum, gross-le-other, gross-le-selected)))

-- A sale takes the same collateral from both sides, never more than either has, with the positions
-- that come in counted; splits it into the fee and what the seller gets; and leaves a pool whose
-- product is at least what it was.
pub quote_sell_of_keeps :
    (selected other positions_in : ℕ)
    → let q = quote_sell_of selected other positions_in in
      (q.new_selected + q.gross_collateral ≡ selected + positions_in)
      × (q.new_other + q.gross_collateral ≡ other)
      × (q.collateral_out + q.liquidity_fee ≡ q.gross_collateral)
      × (selected * other ≤ q.new_selected * q.new_other)
unfolding quote_sell_of
quote_sell_of_keeps selected other positions_in = (
  omega (arith, gross-le-selected selected other positions_in),
  omega (arith, gross-le-other selected other positions_in),
  omega arith,
  product_after selected other positions_in,
)
