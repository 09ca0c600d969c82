-- ===== src/Decimal/Word.antt =====
-- fflib/v1/decimal.go: the int of `rightShift`, for shifts up to `maxShift`, against the natural numbers.
use ffjson.Decimal.Shift.{max_shift, quotient, remainder, next_digit, times_ten}
use native.Mathlib.Nat.{div-mul-le_self, pow-le-pow_right}
use ffjson.Prelude.{ℕ, ◌+◌, ◌-◌, ◌*◌, ◌/◌, ◌^◌, ◌≤◌, ◌<◌, ◌≡◌, refl, true, ltb, lt→ltb, arith}

-- `1 << k`
pub power_small : (k : ℕ) → k ≤ max_shift → 2 ^ k ≤ 2 ^ 27
power_small k h = pow-le-pow_right {n = 2} (omega arith) {j = 27} h

module _ (p n : ℕ) (word : p ≤ 2 ^ 27) (small : n < 10 * p) where
  pub positive_word : ltb n (2 ^ 63) ≡ true
  positive_word = lt→ltb n (2 ^ 63) (omega (arith, word, small))

  pub quotient-div : quotient p n ≡ n / p
  unfolding quotient
  quotient-div = rw positive_word refl

  pub remainder-sub : remainder p n ≡ n - n / p * p
  unfolding remainder
  remainder-sub = rw quotient-div (omega (arith, word, small, div-mul-le_self n p))

  pub times_ten-mul : times_ten n ≡ n * 10
  unfolding times_ten
  times_ten-mul = omega (arith, word, small)

  pub next_digit-add : (c : ℕ) → b'0' ≤ c → c ≤ b'9' → next_digit n c ≡ n * 10 + (c - b'0')
  unfolding next_digit
  next_digit-add c low high = omega (arith, word, small, low, high)
