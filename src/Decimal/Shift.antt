-- ===== src/Decimal/Shift.antt =====
-- fflib/v1/decimal.go: `rightShift`, `leftShift` and `Shift`. The digits that a loop writes never reach
-- those that it still reads.
use ffjson.Decimal.{Decimal, ℤ, pos, negsuc, moved, trim, reversed, forward}
use ffjson.Outcome.{Outcome, ok, err, Fault, ◌>>=◌}
use ffjson.Prelude.{
  ℕ, zero, suc, ◌+◌, ◌-◌, ◌*◌, ◌/◌, ◌%◌, ◌^◌, Bool, true, false, not, ◌&&◌, ◌||◌, Option, none,
  some, List, [], ◌∷◌, ◌++◌, ltb, ◌==◌, if◌then◌else◌, Bytes, codes, get_elem?, length, take, drop,
}

-- `maxShift`
abbrev pub max_shift : ℕ
max_shift = 27

-- `len(a.d)`
abbrev pub max_digits : ℕ
max_digits = 800

unfoldable pub has_nonzero : Bytes → Bool
has_nonzero [] = false
has_nonzero (c ∷ t) = not (c == b'0') || has_nonzero t

-- The digits that a shift writes, as many as there is room for, and the point where it puts it.
unfoldable pub shifted : Decimal → Bytes → ℤ → Decimal
unfolding has_nonzero
shifted a digits p = trim (record a {
  d = take max_digits digits;
  dp = p;
  trunc = a.trunc || has_nonzero (drop max_digits digits);
})

-- In the loops of `rightShift`, `p` is `1 << k`, and `n` is an int of 64 bits: a pattern below 2 ^ 64,
-- negative from 2 ^ 63 on, with its wrap-around.

-- `n >> k`, which rounds a negative number down.
unfoldable pub quotient : ℕ → ℕ → ℕ
quotient p n = if ltb n (2 ^ 63) then n / p else 2 ^ 64 - 1 - (2 ^ 64 - 1 - n) / p

-- `n - dig<<k`
unfoldable pub remainder : ℕ → ℕ → ℕ
unfolding quotient
remainder p n = (n + (2 ^ 64 - quotient p n * p % 2 ^ 64)) % 2 ^ 64

-- `n*10 + c - '0'`
unfoldable pub next_digit : ℕ → ℕ → ℕ
next_digit n c = (n * 10 + c + (2 ^ 64 - b'0')) % 2 ^ 64

-- `n * 10`
unfoldable pub times_ten : ℕ → ℕ
times_ten n = n * 10 % 2 ^ 64

-- Zeros that are picked up behind the last digit. After 64 of them `n` is 0, so that a loop which has not
-- ended by then has no end.
unfoldable pub pick_zeros : ℕ → ℕ → ℕ → ℕ → Outcome (ℕ × ℕ)
unfolding quotient times_ten
pick_zeros zero p n r = err Fault.no_fuel
pick_zeros (suc fuel) p n r = elim (quotient p n == 0) [
  | true ↦ pick_zeros fuel p (times_ten n) (r + 1)
  | false ↦ ok (n, r)
]

-- What the first loop leaves: the number picked up, how many digits it took, and the digits left; nothing
-- where the digits are all zeros.
abbrev pub Picked : Type 0
Picked = Option ((ℕ × ℕ) × Bytes)

-- The first loop.
unfoldable pub pick_up : ℕ → ℕ → ℕ → Bytes → Outcome Picked
unfolding pick_zeros next_digit
pick_up p n r [] =
    if quotient p n == 0
    then (if n == 0 then ok none else pick_zeros 64 p n r >>= λ picked. ok (some (picked, [])))
    else ok (some ((n, r), []))
pick_up p n r (c ∷ t) = elim (quotient p n == 0) [
  | true ↦ pick_up p (next_digit n c) (r + 1) t
  | false ↦ ok (some ((n, r), c ∷ t))
]

-- `byte(dig + '0')`
abbrev pub digit : ℕ → ℕ
digit dig = (dig + b'0') % 256

-- The third loop, which puts down what is left of the number.
unfoldable pub put_rest : ℕ → ℕ → ℕ → Bytes
unfolding quotient remainder times_ten
put_rest zero p n = []
put_rest (suc fuel) p n = elim (ltb 0 n && ltb n (2 ^ 63)) [
  | true ↦ digit (quotient p n) ∷ put_rest fuel p (times_ten (remainder p n))
  | false ↦ []
]

-- The second loop, and the third: each round but the first halves the power of two in `p` that does not
-- divide the number, so that `k + 1` rounds suffice.
unfoldable pub put_down : ℕ → ℕ → ℕ → Bytes → Bytes
unfolding put_rest next_digit
put_down k p n [] = put_rest (suc k) p n
put_down k p n (c ∷ t) = digit (quotient p n) ∷ put_down k p (next_digit (remainder p n) c) t

unfoldable pub right_from : Decimal → ℕ → Picked → Outcome Decimal
unfolding put_down shifted
right_from a k none = ok (record a { d = [] })
right_from a k (some ((n, r), rest)) = ok (shifted a (put_down k (2 ^ k) n rest) (moved a.dp 1 r))

unfoldable pub right_shift : ℕ → Decimal → Outcome Decimal
unfolding right_from pick_up
right_shift k a = pick_up (2 ^ k) 0 0 a.d >>= right_from a k

-- `leftcheats`: how many digits a shift adds, and the digits below which it adds one less.
unfoldable pub leftcheats : List (ℕ × Bytes)
leftcheats =
    (0, [])
    ∷ (1, codes "5")
    ∷ (1, codes "25")
    ∷ (1, codes "125")
    ∷ (2, codes "625")
    ∷ (2, codes "3125")
    ∷ (2, codes "15625")
    ∷ (3, codes "78125")
    ∷ (3, codes "390625")
    ∷ (3, codes "1953125")
    ∷ (4, codes "9765625")
    ∷ (4, codes "48828125")
    ∷ (4, codes "244140625")
    ∷ (4, codes "1220703125")
    ∷ (5, codes "6103515625")
    ∷ (5, codes "30517578125")
    ∷ (5, codes "152587890625")
    ∷ (6, codes "762939453125")
    ∷ (6, codes "3814697265625")
    ∷ (6, codes "19073486328125")
    ∷ (7, codes "95367431640625")
    ∷ (7, codes "476837158203125")
    ∷ (7, codes "2384185791015625")
    ∷ (7, codes "11920928955078125")
    ∷ (8, codes "59604644775390625")
    ∷ (8, codes "298023223876953125")
    ∷ (8, codes "1490116119384765625")
    ∷ (9, codes "7450580596923828125")
    ∷ []

-- `prefixIsLessThan`
unfoldable pub prefix_is_less_than : Bytes → Bytes → Bool
prefix_is_less_than b [] = false
prefix_is_less_than [] (y ∷ s) = true
prefix_is_less_than (x ∷ b) (y ∷ s) = elim (x == y) [
  | true ↦ prefix_is_less_than b s
  | false ↦ ltb x y
]

unfoldable pub delta_of : Bytes → ℕ × Bytes → ℕ
unfolding prefix_is_less_than
delta_of d (delta, cutoff) = if prefix_is_less_than d cutoff then delta - 1 else delta

-- The first loop of `leftShift`, from the last digit on: the digits put down, and what is carried.
unfoldable pub multiply : ℕ → Bytes → Bytes × ℕ
multiply k [] = ([], 0)
multiply k (c ∷ t) =
    let (digits, carry) = multiply k t in
    let n = carry + (c - b'0') * 2 ^ k in (digit (n - 10 * (n / 10)) ∷ digits, n / 10)

-- The second loop puts down the digits of the carry, which is below 10 ^ 24.
unfoldable pub carry_digits : ℕ → Bytes
carry_digits n = forward (reversed 24 n)

-- The write index of the last digit put down is `delta` less the digits of the carry: below 0 it
-- panics, and above 0 the digits in front stay.
unfoldable pub put_in_front : Decimal → ℕ → Bytes → Bytes → Outcome Decimal
unfolding shifted
put_in_front a delta extra digits =
    if ltb delta (length extra)
    then err Fault.panic
    else ok (shifted a (take (delta - length extra) a.d ++ (extra ++ digits)) (moved a.dp delta 0))

unfoldable pub left_by : ℕ → Decimal → Option (ℕ × Bytes) → Outcome Decimal
unfolding delta_of put_in_front multiply carry_digits
left_by k a none = err Fault.panic
left_by k a (some cheat) =
    put_in_front a (delta_of a.d cheat) (carry_digits (multiply k a.d).1) (multiply k a.d).0

unfoldable pub left_shift : ℕ → Decimal → Outcome Decimal
unfolding left_by leftcheats
left_shift k a = left_by k a (get_elem? leftcheats k)

-- The loops of `Shift`, by `maxShift` at a time; the shift bounds the rounds.
pub left_shifts : ℕ → ℕ → Decimal → Outcome Decimal
unfolding left_shift
left_shifts zero k a = left_shift k a
left_shifts (suc fuel) k a = elim (ltb max_shift k) [
  | true ↦ left_shift max_shift a >>= left_shifts fuel (k - max_shift)
  | false ↦ left_shift k a
]

pub right_shifts : ℕ → ℕ → Decimal → Outcome Decimal
unfolding right_shift
right_shifts zero k a = right_shift k a
right_shifts (suc fuel) k a = elim (ltb max_shift k) [
  | true ↦ right_shift max_shift a >>= right_shifts fuel (k - max_shift)
  | false ↦ right_shift k a
]

-- `Shift` of a number of digits that is not 0.
pub shift_digits : ℤ → Decimal → Outcome Decimal
unfolding left_shifts right_shifts
shift_digits (pos zero) a = ok a
shift_digits (pos (suc k)) a = left_shifts (suc k) (suc k) a
shift_digits (negsuc k) a = right_shifts (suc k) (suc k) a

unfoldable pub shift : ℤ → Decimal → Outcome Decimal
unfolding shift_digits
shift k a = if length a.d == 0 then ok a else shift_digits k a
