-- ===== src/Decimal/Round.antt =====
-- fflib/v1/decimal.go: `Round` gives the nearest number.
use ffjson.Decimal.Carry.{
  IsDigits, IsDigits-take, IsDigits-drop, value_from-split, times_at_most, value-small, Carried,
  carry-Carried,
}
use ffjson.Decimal.{
  Decimal, pos, increment, trim_digits, trim_point, trim, round_up_at, should_round_up, carry,
  carried, round_up, round_down, round,
}
use ffjson.Decimal.Value.{pow10, value, value_from, value_from-append, value_from-trim_digits}
use ffjson.Prelude.{
  ℕ, zero, suc, ◌+◌, ◌-◌, ◌*◌, ◌≤◌, ◌<◌, ◌≡◌, ◌⊎◌, refl, sym, ap, ◌∙◌, Bool, true, false, inl, inr,
  Option, none, some, [], ◌∷◌, lt→leb, Bytes, Bool-cases, get_or, length, length-take, length-drop,
  take, take-drop, drop, drop_at, arith,
}

-- `b` has `units` of the place behind the first `nd` digits of `a`.
abbrev pub HasUnits : Decimal → ℕ → ℕ → Decimal → Type 0
HasUnits a nd units b =
    ((b.dp ≡ a.dp) × (length b.d ≤ nd) × (value b.d * pow10 (nd - length b.d) ≡ units))
    ⊎ ((b.dp ≡ increment a.dp)
        × (length b.d ≤ nd + 1)
        × (value b.d * pow10 (nd + 1 - length b.d) ≡ units))
    ⊎ ((b.d ≡ []) × (b.dp ≡ pos 0) × (units ≡ 0))

-- The digits cut off weigh no more than half of a unit, or no less, as `shouldRoundUp` says.
abbrev Halves : Bool → ℕ → ℕ → Type 0
Halves true part unit = unit ≤ 2 * part
Halves false part unit = 2 * part ≤ unit

get_or-drop : (j c : ℕ) (xs t : Bytes) → drop j xs ≡ c ∷ t → get_or xs j 0 ≡ c
get_or-drop zero c [] t e = absurd (omega (arith, ap length e))
get_or-drop zero c (x ∷ xs) t e = head_of e
  where
    head_of : (x ∷ xs) ≡ c ∷ t → x ≡ c
    head_of e = cc
get_or-drop (suc j) c [] t e = absurd (omega (arith, ap length e))
get_or-drop (suc j) c (x ∷ xs) t e = get_or-drop j c xs t e

module _ (a : Decimal) (nd : ℕ) (inside : nd < length a.d) (digits : IsDigits a.d) where
  -- The number is the digits kept, in units, and the part cut off.
  parts : value a.d ≡ value (take nd a.d) * pow10 (length a.d - nd) + value (drop nd a.d)
  parts =
      ap value (sym (take-drop nd a.d))
      ∙ value_from-append 0 (take nd a.d) (drop nd a.d)
      ∙ value_from-split (value (take nd a.d)) (drop nd a.d)
      ∙ ap (λ (k : ℕ). value (take nd a.d) * pow10 k + value (drop nd a.d)) (length-drop nd a.d)

  part_small : value (drop nd a.d) < pow10 (length a.d - nd)
  part_small =
      let e = length-drop nd a.d in
      let h = value-small (drop nd a.d) (IsDigits-drop nd a.d digits) in rw e at h

  module _ (c : ℕ) (t : Bytes) (at : drop nd a.d ≡ c ∷ t) where
    places : length a.d ≡ nd + 1 + length t
    places = omega (arith, ap length at, length-drop nd a.d)

    up_digit : round_up_at a nd ≡ true → b'5' ≤ c
    unfolding round_up_at
    up_digit h = ground (arith, get_or-drop nd c a.d t at)

    down_digit : round_up_at a nd ≡ false → (c < b'5') ⊎ ((c ≡ b'5') × (length t ≡ 0))
    unfolding round_up_at
    down_digit h = ground (arith, get_or-drop nd c a.d t at, places)

    part_is : value (drop nd a.d) ≡ (c - b'0') * pow10 (length t) + value t
    part_is =
        let z : 0 + (c - b'0') ≡ c - b'0' = omega arith in
        ap value at ∙ ap (λ (k : ℕ). value_from k t) z ∙ value_from-split (c - b'0') t

    unit_is : pow10 (length a.d - nd) ≡ 10 * pow10 (length t)
    unit_is = let e : length a.d - nd ≡ suc (length t) = omega (arith, places) in ap pow10 e

    up_part : b'5' ≤ c → pow10 (length a.d - nd) ≤ 2 * value (drop nd a.d)
    up_part h =
        let le = times_at_most 5 (c - b'0') (pow10 (length t)) (omega (arith, h)) in
        omega (arith, le, part_is, unit_is)

    down_part :
        (c < b'5') ⊎ ((c ≡ b'5') × (length t ≡ 0))
        → 2 * value (drop nd a.d) ≤ pow10 (length a.d - nd)
    down_part (inl h) =
        let le = times_at_most (c - b'0') 4 (pow10 (length t)) (omega (arith, h)) in
        let rest : value t < pow10 (length t) =
          value-small t (rw at at (IsDigits-drop nd a.d digits)).2 in
        omega (arith, le, part_is, unit_is, rest)
    down_part (inr (five, alone)) =
        let none_left : t ≡ [] = nil_of t alone in
        let e : value (drop nd a.d) ≡ 5 = ap value at ∙ rw (five, none_left) refl in
        let u : pow10 (length a.d - nd) ≡ 10 = unit_is ∙ rw alone refl in omega (arith, e, u)
      where
        nil_of : (t : Bytes) → length t ≡ 0 → t ≡ []
        nil_of [] h = refl
        nil_of (x ∷ t) h = absurd (omega (arith, h))

times_next : (n u : ℕ) → (n + 1) * u ≡ n * u + u
times_next n u = grind arith

-- What `RoundUp` leaves is one unit more than the digits kept.
carried-HasUnits :
    (a : Decimal) (nd : ℕ) (kept : Bytes) (o : Option Bytes)
    → length kept ≡ nd
    → Carried 0 kept o
    → HasUnits a nd (value kept + 1) (carried a o)
unfolding carried
carried-HasUnits a nd kept none size e =
    let one : nd + 1 - 1 ≡ nd = omega arith in
    inr (
      inl (
        refl,
        omega arith,
        rw one (let z : 1 * pow10 nd ≡ value kept + 1 = omega (arith, rw size at e) in z),
      ))
carried-HasUnits a nd kept (some ds) size (le, e) =
    inl (refl, omega (arith, le, size), rw size at e)

trimmed-HasUnits :
    (a : Decimal) (nd : ℕ) (ds : Bytes) (n : ℕ)
    → length ds ≤ nd
    → value ds * pow10 (nd - length ds) ≡ n
    → HasUnits a nd n (record a { d = ds; dp = trim_point ds a.dp })
trimmed-HasUnits a nd [] n le e = inr (inr (refl, refl, (let z : n ≡ 0 = omega (arith, e) in z)))
trimmed-HasUnits a nd (c ∷ t) n le e = inl (refl, le, e)

module _ (a : Decimal) (nd : ℕ) (inside : nd < length a.d) (digits : IsDigits a.d) where
  kept_length : length (take nd a.d) ≡ nd
  kept_length = length-take nd a.d (omega (arith, inside))

  up-HasUnits : HasUnits a nd (value (take nd a.d) + 1) (round_up a (pos nd))
  unfolding round_up
  up-HasUnits = rw (lt→leb (length a.d) nd inside) (
      carried-HasUnits a nd (take nd a.d) (carry (take nd a.d)) kept_length
        (carry-Carried 0 (take nd a.d) (IsDigits-take nd a.d digits)))

  down-HasUnits : HasUnits a nd (value (take nd a.d)) (round_down a (pos nd))
  unfolding round_down trim
  down-HasUnits =
      let (le, e) = value_from-trim_digits 0 (take nd a.d) in
      rw (lt→leb (length a.d) nd inside) (
        trimmed-HasUnits a nd (trim_digits (take nd a.d)) (value (take nd a.d))
          (omega (arith, le, kept_length)) (rw kept_length at e))

round-up :
    (a : Decimal) (nd : ℕ)
    → nd < length a.d
    → round_up_at a nd ≡ true
    → round a (pos nd) ≡ round_up a (pos nd)
unfolding round should_round_up round_up
round-up a nd inside up = rw (lt→leb (length a.d) nd inside, up) refl

round-down :
    (a : Decimal) (nd : ℕ)
    → nd < length a.d
    → round_up_at a nd ≡ false
    → round a (pos nd) ≡ round_down a (pos nd)
unfolding round should_round_up round_down
round-down a nd inside down = rw (lt→leb (length a.d) nd inside, down) refl

-- `Round` of a decimal whose digits are digits, to fewer digits than it has: the result is a whole
-- number of units, a unit being the place of the last digit kept, and it lies no further than half a
-- unit from the decimal.
pub round-HasUnits :
    (a : Decimal) (nd : ℕ)
    → nd < length a.d
    → IsDigits a.d
    → (units : ℕ) × HasUnits a nd units (round a (pos nd))
      × (2 * (units * pow10 (length a.d - nd)) ≤ 2 * value a.d + pow10 (length a.d - nd))
      × (2 * value a.d ≤ 2 * (units * pow10 (length a.d - nd)) + pow10 (length a.d - nd))
round-HasUnits a nd inside digits =
    let (c, t, at) = drop_at a.d nd inside in
    let kept = value (take nd a.d) in
    let split = parts a nd inside digits in
    elim (Bool-cases (round_up_at a nd)) [
      | inl up ↦
          let half = up_part a nd inside digits c t at (up_digit a nd inside digits c t at up) in
          let next = times_next kept (pow10 (length a.d - nd)) in
          let small = part_small a nd inside digits in
          rw (round-up a nd inside up) (
            kept + 1,
            up-HasUnits a nd inside digits,
            omega (arith, split, half, next),
            omega (arith, split, next, small),
          )
      | inr down ↦
          let half =
            down_part a nd inside digits c t at (down_digit a nd inside digits c t at down) in
          rw (round-down a nd inside down) (
            kept,
            down-HasUnits a nd inside digits,
            omega (arith, split),
            omega (arith, split, half),
          )
    ]
