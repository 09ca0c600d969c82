-- ===== src/Decimal/LeftExact.antt =====
-- fflib/v1/decimal.go: `leftShift` multiplies by a power of two.
use ffjson.Decimal.Carry.{IsDigits, value-small}
use ffjson.Decimal.CarrySize.{five_two, below_cutoff, above_cutoff, above_power, below_power}
use ffjson.Decimal.Cutoff.{Compares, IsRow}
use ffjson.Decimal.Left.{Multiplied, multiply-Multiplied}
use ffjson.Decimal.Right.{pow10-add, pow-pos}
use ffjson.Decimal.Shift.{multiply, carry_digits}
use ffjson.Decimal.Value.{pow10, pow10-some, value, length-reversed, shift_low}
use ffjson.Decimal.{reversed, forward}
use ffjson.Prelude.{
  ℕ, zero, suc, ◌+◌, ◌-◌, ◌*◌, ◌/◌, ◌^◌, ◌≤◌, ◌<◌, ◌≡◌, refl, sym, ap, ◌∙◌, true, false, some, [],
  ◌∷◌, ltb, lt→ltb, Bytes, length, length-append, arith,
}

-- A number has a digit for each power of ten that it reaches.
length-reversed-low :
    (room j v : ℕ) → j < room → pow10 j ≤ v → j < length (forward (reversed room v))
unfolding reversed
length-reversed-low zero j v fits low = absurd (omega (arith, fits))
length-reversed-low (suc room) zero v fits low =
    let more : ltb 0 v ≡ true = lt→ltb 0 v (omega (arith, low)) in
    rw (reversed, more)
      (omega
        (arith, length-append (forward (reversed room (v / 10))) ((v - 10 * (v / 10) + b'0') ∷ [])))
length-reversed-low (suc room) (suc j) v fits low =
    let more : ltb 0 v ≡ true = lt→ltb 0 v (omega (arith, low, pow10-some j)) in
    let front = forward (reversed room (v / 10)) in
    let longer = length-reversed-low room j (v / 10) (omega (arith, fits)) (omega (arith, low)) in
    rw (reversed, more)
      (omega (arith, longer, length-append front ((v - 10 * (v / 10) + b'0') ∷ [])))

-- The digits of a number between two powers of ten.
carry_digits-length :
    (j v : ℕ) → j < 23 → pow10 j ≤ v → v < pow10 (suc j) → length (carry_digits v) ≡ suc j
unfolding carry_digits
carry_digits-length j v fits low high =
    let a = length-reversed-low 24 j v (omega (arith, fits)) low in
    let b = length-reversed 24 (suc j) v high in omega (arith, a, b)

carry_digits-none : length (carry_digits 0) ≡ 0
unfolding carry_digits reversed
carry_digits-none = refl

small_enough : (j v : ℕ) → j ≤ 24 → v < pow10 j → v < pow10 24
small_enough j v le small =
    let e : 24 ≡ j + (24 - j) = omega (arith, le) in
    let wide : pow10 24 ≡ pow10 j * pow10 (24 - j) = ap pow10 e ∙ pow10-add j (24 - j) in
    omega (arith, small, wide, shift_low (pow10 j) (24 - j))

-- Five to the power of the shift times two to the power of it, by the places of the cutoff.
cutoff_power :
    (k l δ f : ℕ) → f ≡ 5 ^ suc k → l + suc δ ≡ suc k + 1 → f * 2 ^ suc k ≡ pow10 l * pow10 δ
cutoff_power k l δ f e size =
    let s : suc k ≡ l + δ = omega (arith, size) in
    ap (λ (m : ℕ). m * 2 ^ suc k) e ∙ five_two (suc k) ∙ ap pow10 s ∙ pow10-add l δ

pub multiply-parts :
    (k : ℕ) (ds : Bytes)
    → (value (multiply k ds).0 < pow10 (length ds))
      × (length (multiply k ds).0 ≡ length ds)
      × ((multiply k ds).1 * pow10 (length ds) + value (multiply k ds).0 ≡ value ds * 2 ^ k)
unfolding Multiplied
multiply-parts k ds =
    let (size, in_out, product) = multiply-Multiplied k ds in
    let small = value-small (multiply k ds).0 in_out in (rw size at small, size, product)

module _ (k : ℕ) (ds : Bytes) (digits : IsDigits ds)
    (first : pow10 (length ds) ≤ 10 * value ds) where
  abbrev carried_on : ℕ
  carried_on = (multiply (suc k) ds).1

  abbrev part : ℕ
  part = value (multiply (suc k) ds).0

  product : value ds * 2 ^ suc k ≡ carried_on * pow10 (length ds) + part
  product = sym (multiply-parts (suc k) ds).2

  part_small : part < pow10 (length ds)
  part_small = (multiply-parts (suc k) ds).0

  module _ (δ : ℕ) (cutoff : Bytes) (row : IsRow (suc k) (some (suc δ, cutoff))) where
    pub size_below :
        Compares true ds cutoff → (length (carry_digits carried_on) ≡ δ) × (carried_on < pow10 24)
    unfolding IsRow
    size_below cut =
        let (in_cutoff, ends, spelled, places, reach, power, some_digit, nine) = row in
        let cut_power = cutoff_power k (length cutoff) δ (value cutoff) spelled places in
        let high =
          below_cutoff (value ds) (2 ^ suc k) carried_on part (pow10 (length ds)) product
            (pow-pos (suc k)) (value cutoff) (pow10 (length cutoff)) (pow10 δ) cut cut_power in
        (
          at δ (omega (arith, nine)) reach high,
          small_enough δ carried_on (omega (arith, nine)) high,
        )
      where
        at :
            (j : ℕ)
            → j ≤ 8
            → pow10 (suc j) ≤ 10 * 2 ^ suc k
            → carried_on < pow10 j
            → length (carry_digits carried_on) ≡ j
        at zero le reach high =
            let z : carried_on ≡ 0 = omega (arith, high) in rw z carry_digits-none
        at (suc j) le reach high =
            let low =
              above_power (value ds) (2 ^ suc k) carried_on part (pow10 (length ds)) product
                (pow-pos (suc k)) (pow10 j) first (omega (arith, reach)) part_small in
            carry_digits-length j carried_on (omega (arith, le)) low high

    pub size_above :
        Compares false ds cutoff
        → (length (carry_digits carried_on) ≡ suc δ) × (carried_on < pow10 24)
    unfolding IsRow
    size_above cut =
        let (in_cutoff, ends, spelled, places, reach, power, some_digit, nine) = row in
        let cut_power = cutoff_power k (length cutoff) δ (value cutoff) spelled places in
        let low =
          above_cutoff (value ds) (2 ^ suc k) carried_on part (pow10 (length ds)) product
            (pow-pos (suc k)) (value cutoff) (pow10 (length cutoff)) (pow10 δ) cut cut_power
            part_small (pow10-some (length cutoff)) in
        let high =
          below_power (value ds) (2 ^ suc k) carried_on part (pow10 (length ds)) product
            (pow-pos (suc k)) (pow10 (suc δ)) (value-small ds digits) power in
        (
          carry_digits-length δ carried_on (omega (arith, nine)) low high,
          small_enough (suc δ) carried_on (omega (arith, nine)) high,
        )
