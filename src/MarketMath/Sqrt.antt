-- ===== src/MarketMath/Sqrt.antt =====
-- Newton's iteration for the integer square root
-- (prototype/live-market-app/src/web3/marketMath.js, `sqrtFloor`).
use tradermarket.Base.{
  ℕ, zero, suc, ◌+◌, ◌-◌, ◌*◌, ◌/◌, ◌≤◌, ◌<◌, ◌≡◌, inl, inr, arith, ltb, Bool-cases, ltb→le, ltb→lt,
  ◌==◌,
}
use tradermarket.MarketMath.{descend, sqrt_floor, sqrt_ceil}
use native.Mathlib.Nat.{div-add-mod, mod-lt, mul-le-mul_left}
use native.Mathlib.Decide.{dec_lt, dec_le}

pub square-le : (a b : ℕ) → a ≤ b → a * a ≤ b * b
square-le a b h = grind arith

square-lt : (a b : ℕ) → a * a < b * b → a < b
square-lt a b h = elim (dec_lt a b) [
  | yes p ↦ p
  | no p ↦ absurd (omega (arith, square-le b a (omega arith)))
]

pub square-le_cancel : (a b : ℕ) → a * a ≤ b * b → a ≤ b
square-le_cancel a b h = elim (dec_le a b) [
  | yes p ↦ p
  | no p ↦ absurd (omega (arith, square-le (b + 1) a (omega arith)))
]

mean_of_le : (a d : ℕ) → 4 * (a * (a + d)) ≤ (a + (a + d)) * (a + (a + d))
mean_of_le a d = omega arith

-- The sum squared is at least four times the product.
pub mean : (a b : ℕ) → 4 * (a * b) ≤ (a + b) * (a + b)
mean a b = elim (dec_le a b) [
  | yes p ↦ let e : a + (b - a) ≡ b = omega arith in rw e at (mean_of_le a (b - a))
  | no p ↦ let e : b + (a - b) ≡ a = omega arith in omega (arith, rw e at (mean_of_le b (a - b)))
]

above_mean : (v x q s : ℕ) → v < x * (q + 1) → x + (q + 1) ≤ 2 * (s + 1) → v < (s + 1) * (s + 1)
above_mean v x q s h k = omega (arith, mean x (q + 1), square-le (x + (q + 1)) (2 * (s + 1)) k)

below_next : (value x : ℕ) → 0 < x → value < x * (value / x + 1)
below_next value x h = omega (arith, div-add-mod value x, mod-lt value h)

-- One round from any positive point lands at or above the root.
round_above : (value x : ℕ) → 0 < x → value < ((x + value / x) / 2 + 1) * ((x + value / x) / 2 + 1)
round_above value x h =
    above_mean value x (value / x) ((x + value / x) / 2) (below_next value x h) (omega arith)

round_stops : (value x : ℕ) → 0 < x → x ≤ (x + value / x) / 2 → x * x ≤ value
round_stops value x h le =
    omega (arith, div-add-mod value x, mul-le-mul_left {m = x} {n = value / x} x (omega arith))

round_pos : (value s : ℕ) → 0 < value → value < (s + 1) * (s + 1) → 0 < s
round_pos value zero v h = absurd (omega arith)
round_pos value (suc s) v h = omega arith

-- The loop stops at the root, with as much fuel as its starting point.
descend_root :
    (fuel value x : ℕ)
    → 0 < x
    → 0 < value
    → x ≤ fuel
    → value < (x + 1) * (x + 1)
    → (descend fuel value x * descend fuel value x ≤ value)
      × (value < (descend fuel value x + 1) * (descend fuel value x + 1))
unfolding descend
descend_root zero value x h v f above = absurd (omega arith)
descend_root (suc fuel) value x h v f above = elim (Bool-cases (ltb ((x + value / x) / 2) x)) [
  | inl less ↦
      let next = (x + value / x) / 2 in
      let over = round_above value x h in
      rw less (
        descend_root fuel value next (round_pos value next v over) v
          (omega (arith, ltb→lt next x less)) over)
  | inr stop ↦ rw stop (round_stops value x h (ltb→le ((x + value / x) / 2) x stop), above)
]

sqrt_floor_small :
    (value : ℕ) → value < 2 → (value * value ≤ value) × (value < (value + 1) * (value + 1))
sqrt_floor_small zero h = (omega arith, omega arith)
sqrt_floor_small (suc zero) h = (omega arith, omega arith)
sqrt_floor_small (suc (suc n)) h = absurd (omega arith)

-- `sqrtFloor` returns the integer square root of every number, and its loop ends.
pub sqrt_floor_root :
    (value : ℕ)
    → (sqrt_floor value * sqrt_floor value ≤ value)
      × (value < (sqrt_floor value + 1) * (sqrt_floor value + 1))
unfolding sqrt_floor
sqrt_floor_root value = elim (Bool-cases (ltb value 2)) [
  | inl small ↦ rw small (sqrt_floor_small value (ltb→lt value 2 small))
  | inr large ↦ rw large (
      descend_root value value value (omega (arith, ltb→le value 2 large))
        (omega (arith, ltb→le value 2 large)) (omega arith) (omega arith))
]

-- The rounded root: the least number whose square is at least the value.
pub sqrt_ceil_root :
    (value : ℕ)
    → (value ≤ sqrt_ceil value * sqrt_ceil value) × ((m : ℕ) → value ≤ m * m → sqrt_ceil value ≤ m)
unfolding sqrt_ceil
sqrt_ceil_root value =
    let (under, over) = sqrt_floor_root value in
    let r = sqrt_floor value in
    elim (Bool-cases (r * r == value)) [
      | inl exact ↦ rw exact (ground arith, λ m h. square-le_cancel r m (ground arith))
      | inr rounded ↦ rw rounded (omega arith, λ m h. omega (arith, square-lt r m (ground arith)))
    ]
