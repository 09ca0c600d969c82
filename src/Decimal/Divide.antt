-- ===== src/Decimal/Divide.antt =====
-- fflib/v1/decimal.go: the first loop of `rightShift`, which picks up the digits to divide.
use ffjson.Decimal.Carry.{IsDigits}
use ffjson.Decimal.Shift.{Picked, quotient, times_ten, next_digit, pick_zeros, pick_up}
use ffjson.Decimal.Word.{quotient-div, times_ten-mul, next_digit-add}
use ffjson.Outcome.{Outcome, ok, ◌>>=◌}
use ffjson.Decimal.Value.{pow10, value_from}
use native.Mathlib.Nat.{mul_assoc, div-mul-le_self, lt-div-mul-add, mul-le-mul_right, two-pow-succ}
use ffjson.Prelude.{
  ℕ, zero, suc, ◌+◌, ◌-◌, ◌*◌, ◌/◌, ◌^◌, ◌≤◌, ◌<◌, ◌≡◌, refl, ap, ◌∙◌, true, false, none, some, [],
  ◌∷◌, ◌==◌, ==_iff, if◌then◌else◌, Bytes, length, Bool-cases, inl, inr, arith,
}

quotient_zero : (p n : ℕ) → 0 < p → (n / p == 0) ≡ true → n < p
quotient_zero p n positive e =
    let z = (==_iff (n / p) 0).0 e in
    let h = lt-div-mul-add {a = n} {b = p} positive in omega (arith, rw z at h)

quotient_pos : (p n : ℕ) → (n / p == 0) ≡ false → p ≤ n
quotient_pos p n e =
    let one : 1 ≤ n / p = ground (arith, e) in
    let le = mul-le-mul_right {m = 1} {n = n / p} p one in omega (arith, le, div-mul-le_self n p)

-- The number picked up with its zeros.
abbrev PicksZeros : ℕ → ℕ → ℕ → Outcome (ℕ × ℕ) → Type 0
PicksZeros p n r o =
    (n' : ℕ) × (r' : ℕ) × (z : ℕ) × (o ≡ ok (n', r'))
    × (r' ≡ r + z)
    × (n' ≡ n * pow10 z)
    × (p ≤ n')
    × (n' < 10 * p)

-- What the first loop leaves of a number and its digits, with `z` zeros picked up behind them.
abbrev pub Picks : ℕ → ℕ → ℕ → Bytes → Picked → Type 0
Picks p n r ds none = value_from n ds ≡ 0
Picks p n r ds (some ((n', r'), rest)) =
    (z : ℕ) × (r' + length rest ≡ r + length ds + z)
    × (value_from n' rest ≡ value_from n ds * pow10 z)
    × (p ≤ n')
    × (n' < 10 * p)
    × IsDigits rest
    × (length rest ≤ length ds)

-- The loop ends, and leaves this.
abbrev pub PicksUp : ℕ → ℕ → ℕ → Bytes → Outcome Picked → Type 0
PicksUp p n r ds o = (picked : Picked) × (o ≡ ok picked) × Picks p n r ds picked

module _ (p : ℕ) (positive : 0 < p) (word : p ≤ 2 ^ 27) where
  -- The rounds without the bounds of the int.
  pick_zeros-suc :
      (fuel n r : ℕ)
      → n < 10 * p
      → pick_zeros (suc fuel) p n r
        ≡ (elim (n / p == 0) [ true ↦ pick_zeros fuel p (n * 10) (r + 1) | false ↦ ok (n, r) ])
  pick_zeros-suc fuel n r small =
      let round : pick_zeros (suc fuel) p n r ≡ (elim (quotient p n == 0) [
        | true ↦ pick_zeros fuel p (times_ten n) (r + 1)
        | false ↦ ok (n, r)
      ]) =
        unfold pick_zeros in refl in
      round
      ∙ ap
          (λ (m : ℕ). elim (m == 0) [
            | true ↦ pick_zeros fuel p (times_ten n) (r + 1)
            | false ↦ ok (n, r)
          ])
          (quotient-div p n word small)
      ∙ ap (λ (m : ℕ). elim (n / p == 0) [ true ↦ pick_zeros fuel p m (r + 1) | false ↦ ok (n, r) ])
          (times_ten-mul p n word small)

  -- One round more than those in which the number reaches `p`.
  pick_zeros-PicksZeros :
      (fuel n r : ℕ)
      → n < 10 * p
      → p ≤ n * 2 ^ fuel
      → PicksZeros p n r (pick_zeros (suc fuel) p n r)
  pick_zeros-PicksZeros zero n r small enough = elim (Bool-cases (n / p == 0)) [
    | inl less_p ↦ absurd (omega (arith, quotient_zero p n positive less_p, enough))
    | inr at_least ↦
        rw (pick_zeros-suc zero n r small, at_least)
          (n, r, 0, refl, omega arith, omega arith, quotient_pos p n at_least, small)
  ]
  pick_zeros-PicksZeros (suc fuel) n r small enough = elim (Bool-cases (n / p == 0)) [
    | inl less ↦
        let less_p = quotient_zero p n positive less in
        let (n', r', z, done, places, spelled, low, high) =
          pick_zeros-PicksZeros fuel (n * 10) (r + 1) (omega (arith, less_p)) more in
        rw (pick_zeros-suc (suc fuel) n r small, less)
          (
            n',
            r',
            suc z,
            done,
            omega (arith, places),
            spelled ∙ mul_assoc n 10 (pow10 z),
            low,
            high,
          )
    | inr at_least ↦
        rw (pick_zeros-suc (suc fuel) n r small, at_least)
          (n, r, 0, refl, omega arith, omega arith, quotient_pos p n at_least, small)
  ]
    where
      more : p ≤ n * 10 * 2 ^ fuel
      more =
          let a : n * 10 * 2 ^ fuel ≡ 10 * (n * 2 ^ fuel) = grind arith in
          let b : n * (2 ^ fuel + 2 ^ fuel) ≡ 2 * (n * 2 ^ fuel) = grind arith in
          let c : n * 2 ^ suc fuel ≡ n * (2 ^ fuel + 2 ^ fuel) =
            ap (λ (k : ℕ). n * k) (two-pow-succ fuel) in
          omega (arith, a, b, c, enough)

  pick_up-nil :
      (n r : ℕ)
      → n < 10 * p
      → pick_up p n r [] ≡ (
          if n / p == 0
          then (if n == 0
              then ok none
              else pick_zeros 64 p n r >>= λ picked. ok (some (picked, [])))
          else ok (some ((n, r), [])))
  pick_up-nil n r small =
      let round : pick_up p n r [] ≡ (
          if quotient p n == 0
          then (if n == 0
              then ok none
              else pick_zeros 64 p n r >>= λ picked. ok (some (picked, [])))
          else ok (some ((n, r), []))) =
        unfold pick_up in refl in
      round
      ∙ ap
          (λ (m : ℕ).
            if m == 0
            then (if n == 0
                then ok none
                else pick_zeros 64 p n r >>= λ picked. ok (some (picked, [])))
            else ok (some ((n, r), [])))
          (quotient-div p n word small)

  pick_up-cons :
      (n r c : ℕ) (t : Bytes)
      → n < 10 * p
      → b'0' ≤ c
      → c ≤ b'9'
      → pick_up p n r (c ∷ t) ≡ (elim (n / p == 0) [
        | true ↦ pick_up p (n * 10 + (c - b'0')) (r + 1) t
        | false ↦ ok (some ((n, r), c ∷ t))
      ])
  pick_up-cons n r c t small low high =
      let round : pick_up p n r (c ∷ t) ≡ (elim (quotient p n == 0) [
        | true ↦ pick_up p (next_digit n c) (r + 1) t
        | false ↦ ok (some ((n, r), c ∷ t))
      ]) =
        unfold pick_up in refl in
      round
      ∙ ap
          (λ (m : ℕ). elim (m == 0) [
            | true ↦ pick_up p (next_digit n c) (r + 1) t
            | false ↦ ok (some ((n, r), c ∷ t))
          ])
          (quotient-div p n word small)
      ∙ ap
          (λ (m : ℕ). elim (n / p == 0) [
            | true ↦ pick_up p m (r + 1) t
            | false ↦ ok (some ((n, r), c ∷ t))
          ])
          (next_digit-add p n word small c low high)

  pick_up_end : (n r : ℕ) → n < 10 * p → PicksUp p n r [] (pick_up p n r [])
  pick_up_end n r small = elim (Bool-cases (n / p == 0)) [
    | inr at_least ↦
        rw (pick_up-nil n r small, at_least)
          (
            some ((n, r), []),
            refl,
            (0, omega arith, omega arith, quotient_pos p n at_least, small, tt, omega arith),
          )
    | inl less ↦ elim (Bool-cases (n == 0)) [
      | inl nothing ↦ rw (pick_up-nil n r small, less, nothing) (none, refl, (==_iff n 0).0 nothing)
      | inr something ↦
          let one : 1 ≤ n = ground (arith, something) in
          let power : p ≤ n * 2 ^ 63 = omega (arith, word, one) in
          let (n', r', z, done, places, spelled, low, high) =
            pick_zeros-PicksZeros 63 n r small power in
          rw (pick_up-nil n r small, less, something, done)
            (
              some ((n', r'), []),
              refl,
              (z, omega (arith, places), spelled, low, high, tt, omega arith),
            )
    ]
  ]

  -- One digit more in front of those that the loop passes.
  longer :
      (n r c : ℕ) (t : Bytes) (picked : Picked)
      → Picks p (n * 10 + (c - b'0')) (r + 1) t picked
      → Picks p n r (c ∷ t) picked
  longer n r c t none h = h
  longer n r c t (some ((n', r'), rest)) (z, places, spelled, low, high, in_rest, shorter) =
      (z, omega (arith, places), spelled, low, high, in_rest, omega (arith, shorter))

  pub pick_up-PicksUp :
      (n r : ℕ) (ds : Bytes) → n < 10 * p → IsDigits ds → PicksUp p n r ds (pick_up p n r ds)
  pick_up-PicksUp n r [] small digits = pick_up_end n r small
  pick_up-PicksUp n r (c ∷ t) small (low, high, digits) = elim (Bool-cases (n / p == 0)) [
    | inl less ↦
        let less_p = quotient_zero p n positive less in
        let (picked, done, picks) =
          pick_up-PicksUp (n * 10 + (c - b'0')) (r + 1) t (omega (arith, less_p, low, high))
            digits in
        rw (pick_up-cons n r c t small low high, less) (picked, done, longer n r c t picked picks)
    | inr at_least ↦
        rw (pick_up-cons n r c t small low high, at_least)
          (
            some ((n, r), c ∷ t),
            refl,
            (
              0,
              omega arith,
              omega arith,
              quotient_pos p n at_least,
              small,
              (low, high, digits),
              omega arith,
            ),
          )
  ]
