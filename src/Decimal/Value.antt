-- ===== src/Decimal/Value.antt =====
-- The number that a list of decimal digits spells.
use native.Mathlib.Nat.{mul_assoc}
use ffjson.Decimal.{trim_after, trim_digits, reversed, forward, integer_digits, integer_zeros}
use ffjson.Prelude.{
  ℕ, zero, suc, ◌+◌, ◌-◌, ◌*◌, ◌/◌, ◌%◌, ◌^◌, ◌≤◌, ◌<◌, ◌≡◌, refl, sym, ap, ◌∙◌, false, inl, inr,
  [], ◌∷◌, ◌++◌, ltb, ltb-false, ◌==◌, ==_iff, Bool-cases, Bytes, length, length-append, arith,
}

abbrev pub pow10 : ℕ → ℕ
pow10 zero = 1
pow10 (suc n) = 10 * pow10 n

-- The digits behind a number that has been read.
abbrev pub value_from : ℕ → Bytes → ℕ
value_from n [] = n
value_from n (c ∷ t) = value_from (n * 10 + (c - b'0')) t

abbrev pub value : Bytes → ℕ
value = value_from 0

pub value_from-append :
    (n : ℕ) (a b : Bytes) → value_from n (a ++ b) ≡ value_from (value_from n a) b
value_from-append n [] b = refl
value_from-append n (c ∷ a) b = value_from-append (n * 10 + (c - b'0')) a b

pub value_from-low : (n : ℕ) (t : Bytes) → n ≤ value_from n t
value_from-low n [] = omega arith
value_from-low n (c ∷ t) = omega (arith, value_from-low (n * 10 + (c - b'0')) t)

pub mul_ten : (n p : ℕ) → n * 10 * p ≡ n * (10 * p)
mul_ten n p = mul_assoc n 10 p

pub sub_suc : (m n : ℕ) → suc m - suc n ≡ m - n
sub_suc m n = omega arith

-- Each zero that is trimmed is a factor of ten.
pub value_from-trim_digits :
    (n : ℕ) (t : Bytes)
    → (length (trim_digits t) ≤ length t)
      × (value_from n (trim_digits t) * pow10 (length t - length (trim_digits t)) ≡ value_from n t)
unfolding trim_digits
value_from-trim_digits n [] = (omega arith, omega arith)
value_from-trim_digits n (c ∷ t) =
    at (trim_digits t) (value_from-trim_digits (n * 10 + (c - b'0')) t)
  where
    at :
        (ds : Bytes)
        → (length ds ≤ length t)
          × (value_from (n * 10 + (c - b'0')) ds * pow10 (length t - length ds)
              ≡ value_from (n * 10 + (c - b'0')) t)
        → (length (trim_after c ds) ≤ suc (length t))
          × (value_from n (trim_after c ds) * pow10 (suc (length t) - length (trim_after c ds))
              ≡ value_from (n * 10 + (c - b'0')) t)
    at [] (le, e) = elim (Bool-cases (c == b'0')) [
      | inl null ↦
          let c_is : c ≡ b'0' = (==_iff c b'0').0 null in
          let none_added : n * 10 + (c - b'0') ≡ n * 10 = omega arith in
          let all : suc (length t) - 0 ≡ suc (length t) = omega arith in
          rw (null, all)
            (
              omega arith,
              sym (mul_ten n (pow10 (length t)))
                  ∙ ap (λ (k : ℕ). k * pow10 (length t)) (sym none_added)
                  ∙ (let whole : length t - 0 ≡ length t = omega arith in rw whole at e),
            )
      | inr digit ↦
          let one : suc (length t) - 1 ≡ length t - 0 = omega arith in
          rw (digit, one) (omega arith, e)
    ]
    at (x ∷ ds) (le, e) = (omega (arith, le), rw (sub_suc (length t) (suc (length ds))) e)

-- The digits of a number, in `room` places that suffice.
pub value-reversed :
    (room v : ℕ)
    → v < pow10 room
    → (value (forward (reversed room v)) ≡ v) × (length (forward (reversed room v)) ≤ room)
unfolding reversed
value-reversed zero v small = (omega arith, omega arith)
value-reversed (suc room) v small = elim (Bool-cases (ltb 0 v)) [
  | inr null ↦ rw (reversed, null) (omega (arith, ltb-false 0 v null), omega arith)
  | inl more ↦
      let (spelled, fits) = value-reversed room (v / 10) (omega (arith, small)) in
      let front = forward (reversed room (v / 10)) in
      let last = (v - 10 * (v / 10) + b'0') ∷ [] in
      rw (reversed, more)
        (
          value_from-append 0 front last
              ∙ (let e : value_from (value front) last ≡ v = rw spelled (omega arith) in e),
          omega (arith, fits, length-append front last),
        )
]

-- Fewer places do where the number is small.
pub length-reversed : (room k v : ℕ) → v < pow10 k → length (forward (reversed room v)) ≤ k
unfolding reversed
length-reversed zero k v small = omega arith
length-reversed (suc room) zero v small =
    let none_left : ltb 0 v ≡ false = ground arith in rw (reversed, none_left) (omega arith)
length-reversed (suc room) (suc k) v small = elim (Bool-cases (ltb 0 v)) [
  | inr null ↦ rw (reversed, null) (omega arith)
  | inl more ↦
      let front = forward (reversed room (v / 10)) in
      let fewer = length-reversed room k (v / 10) (omega (arith, small)) in
      rw (reversed, more)
        (omega (arith, fewer, length-append front ((v - 10 * (v / 10) + b'0') ∷ [])))
]

-- Without an overflow the loops of `RoundedInteger` read the number and shift it.
pub integer_digits-value :
    (n : ℕ) (t : Bytes) → value_from n t < 2 ^ 64 → integer_digits n t ≡ value_from n t
unfolding integer_digits
integer_digits-value n [] small = refl
integer_digits-value n (c ∷ t) small =
    let le = value_from-low (n * 10 + (c - b'0')) t in
    let fits : (n * 10 + (c - b'0')) % 2 ^ 64 ≡ n * 10 + (c - b'0') = omega (arith, le, small) in
    rw fits (integer_digits-value (n * 10 + (c - b'0')) t small)

pub pow10-some : (k : ℕ) → 1 ≤ pow10 k
pow10-some zero = omega arith
pow10-some (suc k) = omega (arith, pow10-some k)

pub shift_low : (n k : ℕ) → n ≤ n * pow10 k
shift_low n zero = omega arith
shift_low n (suc k) = omega (arith, mul_ten n (pow10 k), shift_low (n * 10) k)

pub integer_zeros-value : (n k : ℕ) → n * pow10 k < 2 ^ 64 → integer_zeros n k ≡ n * pow10 k
unfolding integer_zeros
integer_zeros-value n zero small = omega arith
integer_zeros-value n (suc k) small =
    let moved = mul_ten n (pow10 k) in
    let fits : n * 10 % 2 ^ 64 ≡ n * 10 = omega (arith, moved, small, shift_low (n * 10) k) in
    rw fits (integer_zeros-value (n * 10) k (omega (arith, moved, small)) ∙ moved)
