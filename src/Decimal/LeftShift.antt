-- ===== src/Decimal/LeftShift.antt =====
-- fflib/v1/decimal.go: `leftShift` multiplies by a power of two.
use ffjson.Decimal.Assign.{take_all}
use ffjson.Decimal.Carry.{IsDigits, value_from-split}
use ffjson.Decimal.Cutoff.{Compares, prefix_is_less_than-Compares, IsRow, leftcheats-IsRow}
use ffjson.Decimal.Exact.{IsTimes, sub_ℕ-parts, trim_point-some, product-pos}
use ffjson.Decimal.LeftExact.{multiply-parts, size_below, size_above}
use ffjson.Decimal.Right.{pow-pos}
use ffjson.Decimal.Shift.{
  max_digits, prefix_is_less_than, delta_of, multiply, carry_digits, put_in_front, left_by,
  left_shift, leftcheats, shifted,
}
use ffjson.Decimal.Value.{
  pow10, pow10-some, value, value_from-append, value_from-trim_digits, value-reversed,
}
use ffjson.Decimal.{Decimal, pos_part, neg_part, sub_ℕ, moved, trim_digits, trim}
use ffjson.Outcome.{ok}
use ffjson.Prelude.{
  ℕ, zero, suc, ◌+◌, ◌-◌, ◌*◌, ◌^◌, ◌≤◌, ◌<◌, ◌≡◌, refl, ap, ◌∙◌, Bool, true, false, Option, none,
  some, ◌++◌, le→ltb, if◌then◌else◌, Bytes, get_elem?, length, length-append, arith,
}

-- The digits in front are as many as the table says.
carry_size :
    (k : ℕ) (ds : Bytes) (delta : ℕ) (cutoff : Bytes)
    → IsDigits ds
    → pow10 (length ds) ≤ 10 * value ds
    → IsRow (suc k) (some (delta, cutoff))
    → (length (carry_digits (multiply (suc k) ds).1) ≡ delta_of ds (delta, cutoff))
      × ((multiply (suc k) ds).1 < pow10 24)
      × (delta_of ds (delta, cutoff) ≤ 9)
unfolding delta_of IsRow
carry_size k ds zero cutoff digits first row = absurd (omega (arith, row))
carry_size k ds (suc δ) cutoff digits first row =
    at (prefix_is_less_than ds cutoff) (prefix_is_less_than-Compares ds cutoff digits row.0 row.1)
  where
    at :
        (t : Bool)
        → Compares t ds cutoff
        → (length (carry_digits (multiply (suc k) ds).1) ≡ (if t then suc δ - 1 else suc δ))
          × ((multiply (suc k) ds).1 < pow10 24)
          × ((if t then suc δ - 1 else suc δ) ≤ 9)
    at true cut =
        let (size, small) = size_below k ds digits first δ cutoff row cut in
        (omega (arith, size), small, omega (arith, row))
    at false cut =
        let (size, small) = size_above k ds digits first δ cutoff row cut in
        (size, small, omega (arith, row))

-- The number that is put down is the product.
shifted-IsTimes :
    (k : ℕ) (a : Decimal) (out : Bytes) (added : ℕ)
    → length out ≡ added + length a.d
    → length out ≤ max_digits
    → value out ≡ value a.d * 2 ^ k
    → 0 < value out
    → IsTimes a (2 ^ k) (shifted a out (moved a.dp added 0))
unfolding shifted trim moved
shifted-IsTimes k a out added size fits product positive =
    let (shorter, trimmed) = value_from-trim_digits 0 out in
    let b = trim_digits out in
    let g = length out - length b in
    let some_value : 0 < value b = product-pos (value b) (pow10 g) (rw trimmed positive) in
    let point = sub_ℕ-parts (pos_part a.dp + added) (neg_part a.dp + 0) in
    let whole : value a.d * 2 ^ k * pow10 0 ≡ value b * pow10 g = omega (arith, product, trimmed) in
    rw
      (
        take_all max_digits out fits,
        trim_point-some b (sub_ℕ (pos_part a.dp + added) (neg_part a.dp + 0)) some_value,
      )
      (0, g, whole, omega (arith, point, size, shorter))

times_pos : (x y : ℕ) → 0 < x → 0 < y → 0 < x * y
times_pos x y h h' = grind arith

put_in_front-fits :
    (a : Decimal) (delta : ℕ) (extra digits : Bytes)
    → length extra ≡ delta
    → put_in_front a delta extra digits ≡ ok (shifted a (extra ++ digits) (moved a.dp delta 0))
unfolding put_in_front
put_in_front-fits a delta extra digits size =
    let z : delta - length extra ≡ 0 = omega (arith, size) in
    rw (le→ltb delta (length extra) (omega (arith, size)), z) refl

-- leftShift by 1 to 27 of digits that do not start with a zero and leave room for nine more: no index is
-- out of range, and the result is the number times two to the power of the shift, its point included.
pub left_shift-IsTimes :
    (k : ℕ) (a : Decimal)
    → k < 27
    → IsDigits a.d
    → pow10 (length a.d) ≤ 10 * value a.d
    → length a.d + 9 ≤ max_digits
    → (b : Decimal) × (left_shift (suc k) a ≡ ok b) × IsTimes a (2 ^ suc k) b
unfolding left_shift left_by IsRow
left_shift-IsTimes k a small digits first fits =
    at (get_elem? leftcheats (suc k)) (leftcheats-IsRow k small)
  where
    extra : Bytes
    extra = carry_digits (multiply (suc k) a.d).1

    at :
        (o : Option (ℕ × Bytes))
        → IsRow (suc k) o
        → (b : Decimal) × (left_by (suc k) a o ≡ ok b) × IsTimes a (2 ^ suc k) b
    at none row = absurd row
    at (some (delta, cutoff)) row =
        let (size, carried, nine) = carry_size k a.d delta cutoff digits first row in
        let (part, same, product) = multiply-parts (suc k) a.d in
        let behind = (multiply (suc k) a.d).0 in
        let out = extra ++ behind in
        let long = length-append extra behind in
        let spelled = (value-reversed 24 (multiply (suc k) a.d).1 carried).0 in
        let whole : value out ≡ value a.d * 2 ^ suc k =
          value_from-append 0 extra behind
          ∙ value_from-split (value extra) behind
          ∙ ap (λ (m : ℕ). m * pow10 (length behind) + value behind) spelled
          ∙ ap (λ (m : ℕ). (multiply (suc k) a.d).1 * pow10 m + value behind) same
          ∙ product in
        let some_value : 0 < value out = rw whole (
          times_pos (value a.d) (2 ^ suc k) (omega (arith, first, pow10-some (length a.d)))
            (pow-pos (suc k))) in
        (
          shifted a out (moved a.dp (delta_of a.d (delta, cutoff)) 0),
          put_in_front-fits a (delta_of a.d (delta, cutoff)) extra behind size,
          shifted-IsTimes (suc k) a out (delta_of a.d (delta, cutoff))
              (omega (arith, long, size, same)) (omega (arith, long, size, same, nine, fits)) whole
              some_value,
        )
