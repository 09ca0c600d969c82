-- ===== src/Decimal/Assign.antt =====
-- fflib/v1/decimal.go: a number that is assigned is read back by `RoundedInteger`.
use ffjson.Decimal.{
  Decimal, pos, trim_digits, trim_point, trim, reversed, forward, assign, should_round_up,
  rounded_at, rounded_integer,
}
use ffjson.Decimal.Value.{
  pow10, value, value_from-trim_digits, value-reversed, length-reversed, integer_digits-value,
  integer_zeros-value, shift_low,
}
use ffjson.Prelude.{
  ℕ, zero, suc, ◌-◌, ◌*◌, ◌^◌, ◌≤◌, ◌<◌, ◌≡◌, refl, ap, ◌∙◌, [], ◌∷◌, le→ltb, le→leb, Bytes, length,
  take, arith,
}

pub take_all : (n : ℕ) (xs : Bytes) → length xs ≤ n → take n xs ≡ xs
take_all zero [] h = refl
take_all zero (x ∷ xs) h = absurd (omega arith)
take_all (suc n) [] h = refl
take_all (suc n) (x ∷ xs) h = ap (◌∷◌ x) (take_all n xs (omega arith))

-- Digits that stand in front of the point, which is not far off.
rounded_at-value :
    (a : Decimal) (p : ℕ)
    → length a.d ≤ p
    → value a.d * pow10 (p - length a.d) < 2 ^ 64
    → value a.d < 2 ^ 64
    → rounded_at a p ≡ value a.d * pow10 (p - length a.d)
unfolding rounded_at should_round_up
rounded_at-value a p le small digits_small =
    rw (le→leb (length a.d) p le, take_all p a.d le, integer_digits-value 0 a.d digits_small)
      (integer_zeros-value (value a.d) (p - length a.d) small)

rounded_integer-trimmed :
    (ds : Bytes) (a : Decimal) (p v : ℕ)
    → length ds ≤ p
    → p ≤ 20
    → v < 2 ^ 64
    → value ds * pow10 (p - length ds) ≡ v
    → value ds < 2 ^ 64
    → rounded_integer (record a { d = ds; dp = trim_point ds (pos p) }) ≡ v
unfolding rounded_integer
rounded_integer-trimmed [] a p v le near small e digits_small =
    rounded_at-value (record a { d = []; dp = pos 0 }) 0 (omega arith) (omega arith) (omega arith)
    ∙ (let none_left : 0 * pow10 (0 - 0) ≡ v = omega (arith, e) in none_left)
rounded_integer-trimmed (c ∷ t) a p v le near small e digits_small =
    rw (le→ltb 20 p near)
      (rounded_at-value (record a { d = c ∷ t; dp = pos p }) p le (rw e small) digits_small ∙ e)

-- `RoundedInteger` of a decimal to which any uint64 has been assigned is that number.
pub rounded_integer-assign : (v : ℕ) (a : Decimal) → v < 2 ^ 64 → rounded_integer (assign v a) ≡ v
unfolding assign trim
rounded_integer-assign v a small =
    let digits = forward (reversed 24 v) in
    let (spelled, _) = value-reversed 24 v (omega (arith, small)) in
    let near = length-reversed 24 20 v (omega (arith, small)) in
    let (le, scaled) = value_from-trim_digits 0 digits in
    let whole = scaled ∙ spelled in
    rounded_integer-trimmed (trim_digits digits) a (length digits) v le near small whole (
      omega (
        arith,
        whole,
        small,
        shift_low (value (trim_digits digits)) (length digits - length (trim_digits digits)),
      ))
