-- ===== src/Domain/Decimal.antt =====
-- services/live-room/src/domain/decimal.mjs: exact decimal arithmetic on strings, at scale 6.
-- A text is the list of its character codes, and `none` is a throw.
pub mod Print
pub mod RoundTrip
use tradermarket.Base.{
  ℕ, zero, suc, ◌+◌, ◌-◌, ◌*◌, ◌/◌, ◌%◌, Bool, true, false, not, ◌&&◌, Option, none, some, List, [],
  ◌∷◌, ◌++◌, ltb, leb, ◌==◌, if◌then◌else◌, length, is_nil, take, replicate,
}
use tradermarket.Base.Int.{ℤ, pos, negsuc, pos_part, neg_part, ◌+ℤ◌, ltb_ℤ}

abbrev pub Text : Type 0
Text = List ℕ

-- `SCALE` and `ONE`
abbrev pub scale : ℕ
scale = 6

abbrev pub one : ℕ
one = 1000000

-- `\d`
abbrev pub is_digit : ℕ → Bool
is_digit c = leb 48 c && leb c 57

-- `(\d+)`, greedily: the digits in front and what follows them
abbrev pub span_digits : Text → Text × Text
span_digits [] = ([], [])
span_digits (c ∷ cs) =
    let (w, rest) = span_digits cs in if is_digit c then (c ∷ w, rest) else ([], c ∷ cs)

abbrev pub all_digits : Text → Bool
all_digits [] = true
all_digits (c ∷ cs) = let rest = all_digits cs in if is_digit c then rest else false

-- `BigInt(text)` of a text of digits
abbrev pub digits_value : ℕ → Text → ℕ
digits_value acc [] = acc
digits_value acc (c ∷ cs) = digits_value (acc * 10 + (c - 48)) cs

-- `text.padEnd(n, "0")` and `text.padStart(n, "0")`
abbrev pub pad_end : ℕ → Text → Text
pad_end zero cs = cs
pad_end (suc n) [] = 48 ∷ pad_end n []
pad_end (suc n) (c ∷ cs) = c ∷ pad_end n cs

abbrev pub pad_start : ℕ → Text → Text
pad_start n cs = replicate (n - length cs) 48 ++ cs

-- The groups `whole` and `frac` of the pattern, behind the sign.
unfoldable pub match_unsigned : Text → Option (Text × Text)
match_unsigned text =
    let (whole, rest) = span_digits text in
    if is_nil whole then none else elim rest [
      | [] ↦ some (whole, [])
      | c ∷ frac ↦
          if c == b'.' && not (is_nil frac) && all_digits frac then some (whole, frac) else none
    ]

-- `applySign`
abbrev pub apply_sign : Bool → ℕ → ℤ
apply_sign negative zero = pos 0
apply_sign negative (suc n) = if negative then negsuc n else pos (suc n)

-- The digits of the fraction at the scale: cut behind six digits, or padded to six.
abbrev pub scaled_frac : Text → ℕ
scaled_frac frac =
    if ltb scale (length frac)
    then digits_value 0 (pad_end scale (take scale frac))
    else digits_value 0 (pad_end scale frac)

abbrev pub scaled_of : Bool → Option (Text × Text) → Option ℤ
scaled_of negative none = none
scaled_of negative (some (whole, frac)) =
    some (apply_sign negative (digits_value 0 whole * one + scaled_frac frac))

-- `toScaled` of a string
unfoldable pub to_scaled : Text → Option ℤ
to_scaled [] = scaled_of false (match_unsigned [])
to_scaled (c ∷ cs) =
    if c == b'-'
    then scaled_of true (match_unsigned cs)
    else scaled_of false (match_unsigned (c ∷ cs))

-- `n.toString()`: the fuel bounds the digits, and `n + 1` is enough.
unfoldable pub show_digits : ℕ → ℕ → Text
show_digits zero n = []
show_digits (suc fuel) n =
    let rest = show_digits fuel (n / 10) in
    if ltb n 10 then (48 + n) ∷ [] else rest ++ (48 + n % 10) ∷ []

unfoldable pub show_nat : ℕ → Text
unfolding show_digits
show_nat n = show_digits (suc n) n

-- `.replace(/0+$/, "")`
abbrev pub strip_zeros : Text → Text
strip_zeros [] = []
strip_zeros (c ∷ cs) = let rest = strip_zeros cs in if is_nil rest && c == 48 then [] else c ∷ rest

abbrev pub magnitude : ℤ → ℕ
magnitude (pos n) = n
magnitude (negsuc n) = suc n

abbrev pub sign_text : ℤ → Text
sign_text (pos n) = []
sign_text (negsuc n) = b'-' ∷ []

abbrev pub point : Text → Text
point [] = []
point (c ∷ cs) = b'.' ∷ c ∷ cs

-- `fromScaled`
unfoldable pub from_scaled : ℤ → Text
from_scaled z =
    sign_text z
    ++ (show_nat (magnitude z / one)
        ++ point (strip_zeros (pad_start scale (show_nat (magnitude z % one)))))

abbrev pub both : {A B C : Type 0} → (A → B → Option C) → Option A → Option B → Option C
both f (some a) (some b) = f a b
both f _ _ = none

-- `addDecimal`
unfoldable pub add_decimal : Text → Text → Option Text
add_decimal a b = both (λ x y. some (from_scaled (x +ℤ y))) (to_scaled a) (to_scaled b)

pub data Sign : Type 0 where
  below same above : Sign

abbrev pub compare_scaled : ℤ → ℤ → Sign
compare_scaled x y = if ltb_ℤ x y then below else if ltb_ℤ y x then above else same

-- `compareDecimal`: -1, 0 or 1
unfoldable pub compare_decimal : Text → Text → Option Sign
compare_decimal a b = both (λ x y. some (compare_scaled x y)) (to_scaled a) (to_scaled b)

-- `BigInt` division, which truncates toward zero
abbrev pub div_ℤ : ℤ → ℤ → ℤ
div_ℤ (pos a) (pos b) = pos (a / b)
div_ℤ (pos a) (negsuc b) = apply_sign true (a / suc b)
div_ℤ (negsuc a) (pos b) = apply_sign true (suc a / b)
div_ℤ (negsuc a) (negsuc b) = pos (suc a / suc b)

abbrev pub times_ℤ : ℤ → ℕ → ℤ
times_ℤ (pos a) n = pos (a * n)
times_ℤ (negsuc a) n = apply_sign true (suc a * n)

abbrev pub is_zero_ℤ : ℤ → Bool
is_zero_ℤ z = magnitude z == 0

-- `percentOf`: `none` too where the baseline is zero, which throws
unfoldable pub percent_of : Text → Text → Option Text
percent_of a b =
    both (λ y x. if is_zero_ℤ y then none else some (from_scaled (div_ℤ (times_ℤ x (100 * one)) y)))
      (to_scaled b) (to_scaled a)
