-- ===== src/MarketMath/Buy.antt =====
-- What a purchase leaves in the pool (prototype/live-market-app/src/web3/marketMath.js,
-- `quoteBuy`).
use tradermarket.Base.{ℕ, ◌+◌, ◌-◌, ◌*◌, ◌/◌, ◌≤◌, ◌<◌, ◌≡◌, false, some, arith, ◌==◌}
use native.Mathlib.Nat.{div-add-mod, mod-lt, mul-le-mul_left, mul-le-mul_right}
use native.Mathlib.Decide.{dec_le}
use tradermarket.Base.Int.{pos, ◌+ℤ◌, ◌-ℤ◌}
use tradermarket.MarketMath.{quote_buy_of}

-- Division that rounds up: the least number whose product reaches the dividend.
div_up-le : (product b : ℕ) → 0 < b → product ≤ (product + b - 1) / b * b
div_up-le product b h = omega (arith, div-add-mod (product + b - 1) b, mod-lt (product + b - 1) h)

div_up-least : (s product b : ℕ) → 0 < b → product ≤ s * b → (product + b - 1) / b ≤ s
div_up-least s product b h le = elim (dec_le ((product + b - 1) / b) s) [
  | yes p ↦ p
  | no p ↦ absurd (
      omega (
        arith,
        div-add-mod (product + b - 1) b,
        mul-le-mul_right {m = s + 1} {n = (product + b - 1) / b} b (omega arith),
      ))
]

pos-sub : (a b : ℕ) → b ≤ a → pos a -ℤ pos b ≡ pos (a - b)
unfolding ◌-ℤ◌
pos-sub a b h = ground arith

pos-add : (a b : ℕ) → pos a +ℤ pos b ≡ pos (a + b)
unfolding ◌+ℤ◌
pos-add a b = ground arith

-- The fees leave part of the budget, where the rate leaves room for the liquidity fee.
fees-le : (budget bps : ℕ) → bps ≤ 9970 → budget * bps / 10000 + budget * 30 / 10000 ≤ budget
fees-le budget bps h = omega (arith, mul-le-mul_left {m = bps} {n = 9970} budget h)

-- With a rate of at most 9970 and something on the other side, a purchase gives a quote whose
-- fees and input add up to the budget, whose new other side has the input added, whose selected
-- side gives out what it had and the input less what it keeps, and whose new product is at least
-- the old one.
pub quote_buy_of_keeps :
    (selected other budget bps : ℕ)
    → bps ≤ 9970
    → 0 < other
    → (input kept : ℕ) × (quote_buy_of selected other budget bps
        ≡ some (record {
          winner_reward_fee = budget * bps / 10000;
          liquidity_fee = budget * 30 / 10000;
          trade_input = pos input;
          positions_out = pos (selected + input - kept);
          new_selected = pos kept;
          new_other = pos (other + input);
        }))
      × (input + budget * bps / 10000 + budget * 30 / 10000 ≡ budget)
      × (kept ≤ selected)
      × (selected * other ≤ kept * (other + input))
unfolding quote_buy_of
quote_buy_of_keeps selected other budget bps rate some_other = (
  input,
  kept,
  rw (
    pos-sub budget reward (omega (arith, fees)),
    pos-sub (budget - reward) liquidity (omega (arith, fees)),
    pos-add other input,
    open_side,
    pos-add (selected * other) (other + input),
    pos-sub (selected * other + (other + input)) 1 (omega arith),
    pos-add selected input,
    pos-sub (selected + input) kept (omega (arith, kept-le)),
  ),
  omega (arith, fees),
  kept-le,
  div_up-le (selected * other) (other + input) (omega arith),
)
  where
    reward : ℕ
    reward = budget * bps / 10000

    liquidity : ℕ
    liquidity = budget * 30 / 10000

    fees : reward + liquidity ≤ budget
    fees = fees-le budget bps rate

    input : ℕ
    input = budget - reward - liquidity

    kept : ℕ
    kept = (selected * other + (other + input) - 1) / (other + input)

    open_side : (other + input == 0) ≡ false
    open_side = ground arith

    kept-le : kept ≤ selected
    kept-le =
        div_up-least selected (selected * other) (other + input) (omega arith)
          (mul-le-mul_left {m = other} {n = other + input} selected (omega arith))
