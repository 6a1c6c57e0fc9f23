-- ===== src/Domain/Decimal/Print.antt =====
-- Numbers printed by `toString` and read back by `BigInt`
-- (services/live-room/src/domain/decimal.mjs).
use tradermarket.Base.{
  ℕ, zero, suc, ◌+◌, ◌-◌, ◌*◌, ◌/◌, ◌%◌, ◌^◌, ◌≤◌, ◌<◌, ◌≡◌, refl, true, false, [], ◌∷◌, ◌++◌,
  arith, length, is_nil, replicate, length-append,
}
use tradermarket.Domain.Decimal.{
  Text, is_digit, all_digits, digits_value, pad_end, pad_start, strip_zeros, show_digits, show_nat,
}
use native.Mathlib.Nat.{pow-suc}

pub digits_value-append_one :
    (acc : ℕ) (cs : Text) (c : ℕ)
    → digits_value acc (cs ++ c ∷ []) ≡ digits_value acc cs * 10 + (c - 48)
digits_value-append_one acc [] c = refl
digits_value-append_one acc (d ∷ cs) c = digits_value-append_one (acc * 10 + (d - 48)) cs c

pub all_digits-append_one :
    (cs : Text) (c : ℕ)
    → all_digits cs ≡ true
    → is_digit c ≡ true
    → all_digits (cs ++ c ∷ []) ≡ true
all_digits-append_one [] c h d = ground arith
all_digits-append_one (x ∷ cs) c h d = ground (arith, all_digits-append_one cs c)

-- With more fuel than the number, the digits read back as the number.
show_digits_value : (f n : ℕ) → n < f → digits_value 0 (show_digits f n) ≡ n
unfolding show_digits
show_digits_value zero n h = elim h [ ]
show_digits_value (suc f) n h = ground (
  arith,
  show_digits_value f (n / 10),
  digits_value-append_one 0 (show_digits f (n / 10)) (48 + n % 10),
)

pub digits_value-show_nat : (n : ℕ) → digits_value 0 (show_nat n) ≡ n
unfolding show_nat
digits_value-show_nat n = show_digits_value (suc n) n (omega arith)

show_digits-all_digits : (f n : ℕ) → all_digits (show_digits f n) ≡ true
unfolding show_digits
show_digits-all_digits zero n = refl
show_digits-all_digits (suc f) n = ground (
  arith,
  show_digits-all_digits f (n / 10),
  all_digits-append_one (show_digits f (n / 10)) (48 + n % 10),
)

pub all_digits-show_nat : (n : ℕ) → all_digits (show_nat n) ≡ true
unfolding show_nat
all_digits-show_nat n = show_digits-all_digits (suc n) n

append_one-ne-nil : (cs : Text) (c : ℕ) → is_nil (cs ++ c ∷ []) ≡ false
append_one-ne-nil [] c = refl
append_one-ne-nil (x ∷ cs) c = refl

pub show_nat-nonempty : (n : ℕ) → is_nil (show_nat n) ≡ false
unfolding show_nat show_digits
show_nat-nonempty n = ground (arith, append_one-ne-nil (show_digits n (n / 10)) (48 + n % 10))

-- A number below 10 ^ (k + 1) has at most k + 1 digits.
length-show_digits : (k f n : ℕ) → n < 10 ^ suc k → length (show_digits f n) ≤ suc k
unfolding show_digits
length-show_digits k zero n h = omega arith
length-show_digits zero (suc f) n h = ground arith
length-show_digits (suc k) (suc f) n h = ground (
  arith,
  pow-suc 10 (suc k),
  length-show_digits k f (n / 10),
  length-append (show_digits f (n / 10)) ((48 + n % 10) ∷ []),
)

pub length-show_nat : (k n : ℕ) → n < 10 ^ suc k → length (show_nat n) ≤ suc k
unfolding show_nat
length-show_nat k n h = length-show_digits k (suc n) n h

digits_value-zeros : (k : ℕ) (cs : Text) → digits_value 0 (replicate k 48 ++ cs) ≡ digits_value 0 cs
digits_value-zeros zero cs = refl
digits_value-zeros (suc k) cs = digits_value-zeros k cs

pub digits_value-pad_start :
    (n : ℕ) (cs : Text) → digits_value 0 (pad_start n cs) ≡ digits_value 0 cs
digits_value-pad_start n cs = digits_value-zeros (n - length cs) cs

all_digits-zeros :
    (k : ℕ) (cs : Text) → all_digits cs ≡ true → all_digits (replicate k 48 ++ cs) ≡ true
all_digits-zeros zero cs h = h
all_digits-zeros (suc k) cs h = all_digits-zeros k cs h

pub all_digits-pad_start :
    (n : ℕ) (cs : Text) → all_digits cs ≡ true → all_digits (pad_start n cs) ≡ true
all_digits-pad_start n cs h = all_digits-zeros (n - length cs) cs h

length-zeros : (k : ℕ) (cs : Text) → length (replicate k 48 ++ cs) ≡ k + length cs
length-zeros zero cs = omega arith
length-zeros (suc k) cs = omega (arith, length-zeros k cs)

pub length-pad_start : (n : ℕ) (cs : Text) → length cs ≤ n → length (pad_start n cs) ≡ n
length-pad_start n cs h = omega (arith, length-zeros (n - length cs) cs)

pub all_digits-strip_zeros : (cs : Text) → all_digits cs ≡ true → all_digits (strip_zeros cs) ≡ true
all_digits-strip_zeros [] h = refl
all_digits-strip_zeros (c ∷ cs) h = ground (arith, all_digits-strip_zeros cs)

-- Zeros that were stripped at the end come back by padding to the old length.
pub pad_end-strip_zeros : (cs : Text) → pad_end (length cs) (strip_zeros cs) ≡ cs
pad_end-strip_zeros [] = refl
pad_end-strip_zeros (c ∷ cs) = ground (arith, pad_end-strip_zeros cs)

pub length-strip_zeros : (cs : Text) → length (strip_zeros cs) ≤ length cs
length-strip_zeros [] = omega arith
length-strip_zeros (c ∷ cs) = ground (arith, length-strip_zeros cs)
