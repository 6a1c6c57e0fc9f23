-- ===== src/MarketMath.antt =====
-- prototype/live-market-app/src/web3/marketMath.js: quotes against the two reserves of a market.
-- Amounts are BigInts: `ℤ` where a difference may be negative, and naturals where the callers pass
-- amounts and reserves, which are not.
pub mod Sqrt
pub mod Buy
pub mod Sell
use tradermarket.Base.{
  ℕ, zero, suc, ◌+◌, ◌-◌, ◌*◌, ◌/◌, Bool, true, false, Option, none, some, ltb, leb, ◌==◌,
  if◌then◌else◌,
}
use tradermarket.Base.Int.{ℤ, pos, negsuc, ◌+ℤ◌, ◌-ℤ◌, ltb_ℤ}
use tradermarket.Domain.Decimal.{div_ℤ, times_ℤ, is_zero_ℤ}

pub record BuyQuote : Type 0 where
  pub winner_reward_fee : ℕ
  pub liquidity_fee : ℕ
  pub trade_input : ℤ
  pub positions_out : ℤ
  pub new_selected : ℤ
  pub new_other : ℤ

-- The quote once the two sides of the pool are told apart; `none` is a division by zero.
unfoldable pub quote_buy_of : ℕ → ℕ → ℕ → ℕ → Option BuyQuote
quote_buy_of selected other budget bps =
    let winner_reward_fee = budget * bps / 10000 in
    let liquidity_fee = budget * 30 / 10000 in
    let trade_input = pos budget -ℤ pos winner_reward_fee -ℤ pos liquidity_fee in
    let new_other = pos other +ℤ trade_input in
    let product = selected * other in
    let new_selected = div_ℤ (pos product +ℤ new_other -ℤ pos 1) new_other in
    if is_zero_ℤ new_other
    then none
    else some (record {
      winner_reward_fee = winner_reward_fee;
      liquidity_fee = liquidity_fee;
      trade_input = trade_input;
      positions_out = pos selected +ℤ trade_input -ℤ new_selected;
      new_selected = new_selected;
      new_other = new_other;
    })

-- `quoteBuy`; a missing rate throws too
unfoldable pub quote_buy : ℕ → ℕ → Bool → ℕ → Option ℕ → Option BuyQuote
quote_buy reserve_a reserve_b participant_a budget none = none
quote_buy reserve_a reserve_b participant_a budget (some bps) =
    quote_buy_of (if participant_a then reserve_a else reserve_b)
      (if participant_a then reserve_b else reserve_a) budget bps

-- The loop of `sqrtFloor` at `x`. The fuel bounds the rounds: `x` falls in each.
unfoldable pub descend : ℕ → ℕ → ℕ → ℕ
descend zero value x = x
descend (suc fuel) value x =
    let next = (x + value / x) / 2 in
    let rest = descend fuel value next in if ltb next x then rest else x

-- `sqrtFloor` of a number that is not negative
unfoldable pub sqrt_floor : ℕ → ℕ
sqrt_floor value = if ltb value 2 then value else descend value value value

pub record SellQuote : Type 0 where
  pub gross_collateral : ℕ
  pub liquidity_fee : ℕ
  pub collateral_out : ℕ
  pub new_selected : ℕ
  pub new_other : ℕ

-- `floorRoot * floorRoot === discriminant ? floorRoot : floorRoot + 1n`
unfoldable pub sqrt_ceil : ℕ → ℕ
sqrt_ceil d =
    let floor_root = sqrt_floor d in
    if floor_root * floor_root == d then floor_root else floor_root + 1

unfoldable pub quote_sell_of : ℕ → ℕ → ℕ → SellQuote
quote_sell_of selected other positions_in =
    let sum = selected + positions_in + other in
    let root = sqrt_ceil (sum * sum - 4 * positions_in * other) in
    let gross = (sum - root) / 2 in
    let fee = gross * 30 / 10000 in
    record {
      gross_collateral = gross;
      liquidity_fee = fee;
      collateral_out = gross - fee;
      new_selected = selected + positions_in - gross;
      new_other = other - gross;
    }

-- `quoteSell`. No difference in it is negative, which Sell shows.
unfoldable pub quote_sell : ℕ → ℕ → Bool → ℕ → SellQuote
quote_sell reserve_a reserve_b participant_a positions_in =
    quote_sell_of (if participant_a then reserve_a else reserve_b)
      (if participant_a then reserve_b else reserve_a) positions_in
