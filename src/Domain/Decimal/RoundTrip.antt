-- ===== src/Domain/Decimal/RoundTrip.antt =====
-- What is printed reads back (services/live-room/src/domain/decimal.mjs).
use tradermarket.Base.{
  ℕ, zero, suc, ◌/◌, ◌%◌, ◌<◌, ◌≡◌, refl, ap, ◌∙◌, Bool, true, false, some, [], ◌∷◌, ◌++◌, arith,
  length, is_nil,
}
use tradermarket.Base.Int.{ℤ, pos, negsuc, ◌+ℤ◌}
use tradermarket.Domain.Decimal.{
  Text, one, scale, span_digits, is_digit, all_digits, pad_end, pad_start, strip_zeros, show_nat,
  match_unsigned, to_scaled, from_scaled, point, add_decimal, compare_decimal, compare_scaled,
  apply_sign, scaled_of, scaled_frac,
}
use tradermarket.Domain.Decimal.Print.{
  digits_value-show_nat, all_digits-show_nat, show_nat-nonempty, length-show_nat,
  digits_value-pad_start, all_digits-pad_start, length-pad_start, all_digits-strip_zeros,
  pad_end-strip_zeros, length-strip_zeros,
}

-- A text of digits is read to its end where no digit follows.
abbrev StartsOff : Text → Type 0
StartsOff [] = Unit
StartsOff (c ∷ cs) = is_digit c ≡ false

span_digits-append :
    (w rest : Text) → all_digits w ≡ true → StartsOff rest → span_digits (w ++ rest) ≡ (w, rest)
span_digits-append [] [] h s = refl
span_digits-append [] (c ∷ cs) h s = ground arith
span_digits-append (c ∷ w) rest h s = ground (arith, span_digits-append w rest)

point-StartsOff : (f : Text) → StartsOff (point f)
point-StartsOff [] = tt
point-StartsOff (c ∷ cs) = refl

match_unsigned-point :
    (w f : Text)
    → is_nil w ≡ false
    → all_digits w ≡ true
    → all_digits f ≡ true
    → match_unsigned (w ++ point f) ≡ some (w, f)
unfolding match_unsigned
match_unsigned-point w [] n h d = ground (arith, span_digits-append w [] h tt)
match_unsigned-point w (c ∷ cs) n h d = ground (arith, span_digits-append w (point (c ∷ cs)) h refl)

-- The fraction that is printed for `r` reads back as `r`.
module _ (r : ℕ) (h : r < one) where
  length-padded : length (pad_start scale (show_nat r)) ≡ scale
  length-padded = length-pad_start scale (show_nat r) (length-show_nat 5 r (omega arith))

  pad_end-stripped :
      pad_end scale (strip_zeros (pad_start scale (show_nat r))) ≡ pad_start scale (show_nat r)
  pad_end-stripped = rw length-padded at (pad_end-strip_zeros (pad_start scale (show_nat r)))

  scaled_frac-strip : scaled_frac (strip_zeros (pad_start scale (show_nat r))) ≡ r
  scaled_frac-strip = ground (
    arith,
    length-padded,
    length-strip_zeros (pad_start scale (show_nat r)),
    pad_end-stripped,
    digits_value-pad_start scale (show_nat r),
    digits_value-show_nat r,
  )

abbrev frac_text : ℕ → Text
frac_text m = strip_zeros (pad_start scale (show_nat (m % one)))

abbrev body_text : ℕ → Text
body_text m = show_nat (m / one) ++ point (frac_text m)

match_unsigned-body :
    (m : ℕ) → match_unsigned (body_text m) ≡ some (show_nat (m / one), frac_text m)
match_unsigned-body m =
    match_unsigned-point (show_nat (m / one)) (frac_text m) (show_nat-nonempty (m / one))
      (all_digits-show_nat (m / one))
      (all_digits-strip_zeros (pad_start scale (show_nat (m % one)))
        (all_digits-pad_start scale (show_nat (m % one)) (all_digits-show_nat (m % one))))

scaled_of-body :
    (negative : Bool) (m : ℕ)
    → scaled_of negative (match_unsigned (body_text m)) ≡ some (apply_sign negative m)
scaled_of-body negative m = rw (match_unsigned-body m) (
    ap (λ (n : ℕ). some (apply_sign negative n))
      (omega (arith, digits_value-show_nat (m / one), scaled_frac-strip (m % one) (omega arith))))

-- A number's text begins with a digit, so it is not read as a sign.
to_scaled_digits :
    (w rest : Text)
    → is_nil w ≡ false
    → all_digits w ≡ true
    → to_scaled (w ++ rest) ≡ scaled_of false (match_unsigned (w ++ rest))
unfolding to_scaled
to_scaled_digits [] rest n h = cc
to_scaled_digits (c ∷ w) rest n h = ground arith

to_scaled_minus : (cs : Text) → to_scaled (b'-' ∷ cs) ≡ scaled_of true (match_unsigned cs)
unfolding to_scaled
to_scaled_minus cs = refl

-- A scaled number that is printed reads back as itself, whatever its sign.
pub to_scaled-from_scaled : (z : ℤ) → to_scaled (from_scaled z) ≡ some z
unfolding from_scaled
to_scaled-from_scaled (pos m) =
    rw
      (to_scaled_digits (show_nat (m / one)) (point (frac_text m)) (show_nat-nonempty (m / one))
        (all_digits-show_nat (m / one)))
      (scaled_of-body false m ∙ pos_sign m)
  where
    pos_sign : (n : ℕ) → some (apply_sign false n) ≡ some (pos n)
    pos_sign zero = refl
    pos_sign (suc n) = refl
to_scaled-from_scaled (negsuc m) = negated m
  where
    negated : (n : ℕ) → to_scaled (b'-' ∷ body_text (suc n)) ≡ some (negsuc n)
    negated n = to_scaled_minus (body_text (suc n)) ∙ scaled_of-body true (suc n)

-- Printed sums: adding two printed numbers prints their exact sum.
pub add_decimal-from_scaled :
    (x y : ℤ) → add_decimal (from_scaled x) (from_scaled y) ≡ some (from_scaled (x +ℤ y))
unfolding add_decimal
add_decimal-from_scaled x y = rw (to_scaled-from_scaled x, to_scaled-from_scaled y)

pub compare_decimal-from_scaled :
    (x y : ℤ) → compare_decimal (from_scaled x) (from_scaled y) ≡ some (compare_scaled x y)
unfolding compare_decimal
compare_decimal-from_scaled x y = rw (to_scaled-from_scaled x, to_scaled-from_scaled y)
