-- ===== src/DecimalTests.antt =====
-- Runs of the decimals on small inputs, and their theorems at decimals that meet the hypotheses.
use ffjson.Decimal.{Decimal, pos, moved, trim, reversed, assign, round, rounded_integer}
use ffjson.Decimal.Assign.{rounded_integer-assign}
use ffjson.Decimal.Round.{HasUnits, round-HasUnits}
use ffjson.Decimal.Exact.{IsTimes, right_shift-IsTimes}
use ffjson.Decimal.LeftShift.{left_shift-IsTimes}
use ffjson.Outcome.{ok}
use ffjson.Decimal.Shift.{left_shift, right_shift}
use ffjson.Decimal.Value.{value}
use ffjson.Prelude.{◌^◌, ℕ, ◌+◌, ◌*◌, ◌≤◌, ◌≡◌, refl, false, [], codes, arith}

abbrev no_decimal : Decimal
no_decimal = record { d = []; dp = pos 0; neg = false; trunc = false }

rounded_integer-assign_example : rounded_integer (assign 1200 no_decimal) ≡ 1200
rounded_integer-assign_example = rounded_integer-assign 1200 no_decimal (omega arith)

abbrev nines : Decimal
nines = record { d = codes "9996"; dp = pos 1; neg = false; trunc = false }

-- 9.996 to three digits is 10.
rounded_nines : round nines (pos 3) ≡ record nines { d = codes "1"; dp = pos 2 }
unfolding round
rounded_nines = refl

round-HasUnits_example :
    (units : ℕ) × HasUnits nines 3 units (round nines (pos 3))
    × (2 * (units * 10) ≤ 2 * value nines.d + 10)
    × (2 * value nines.d ≤ 2 * (units * 10) + 10)
round-HasUnits_example = round-HasUnits nines 3 (omega arith) (omega arith)

abbrev odd_number : Decimal
odd_number = record { d = codes "25"; dp = pos 2; neg = false; trunc = false }

-- 25 / 8 is 3.125.
shifted_number : right_shift 3 odd_number ≡ ok (record odd_number { d = codes "3125"; dp = pos 1 })
unfolding right_shift moved trim
shifted_number = refl

right_shift-IsTimes_example :
    (b : Decimal) × (right_shift 27 odd_number ≡ ok b) × IsTimes b (2 ^ 27) odd_number
right_shift-IsTimes_example =
    right_shift-IsTimes 27 odd_number (omega arith) (omega arith) (omega arith) (omega arith)

-- 25 times 2 to the power of 27.
left_shift-IsTimes_example :
    (b : Decimal) × (left_shift 27 odd_number ≡ ok b) × IsTimes odd_number (2 ^ 27) b
left_shift-IsTimes_example =
    left_shift-IsTimes 26 odd_number (omega arith) (omega arith) (omega arith) (omega arith)

left_shifted : left_shift 3 odd_number ≡ ok (record odd_number { d = codes "2"; dp = pos 3 })
unfolding left_shift moved trim reversed
left_shifted = refl
