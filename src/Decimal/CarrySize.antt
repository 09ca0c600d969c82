-- ===== src/Decimal/CarrySize.antt =====
-- fflib/v1/decimal.go: `leftShift` carries as many digits as `leftcheats` says.
use ffjson.Decimal.Carry.{times_at_most}
use ffjson.Decimal.Value.{pow10}
use native.Mathlib.Nat.{mul_assoc, mul_comm, mul-le-mul, pow-suc}
use ffjson.Prelude.{
  ℕ, zero, suc, ◌+◌, ◌*◌, ◌^◌, ◌≤◌, ◌<◌, ◌≡◌, refl, ap, ◌∙◌, inl, inr, ltb, ltb→lt, ltb-false,
  Bool-cases, arith,
}

cancel_lt : (x y c : ℕ) → x * c < y * c → x < y
cancel_lt x y c h = elim (Bool-cases (ltb x y)) [
  | inl less ↦ ltb→lt x y less
  | inr more ↦ absurd (omega (arith, times_at_most y x c (ltb-false x y more), h))
]

next_times : (x c : ℕ) → (x + 1) * c ≡ x * c + c
next_times x c = grind arith

pub five_two : (k : ℕ) → 5 ^ k * 2 ^ k ≡ pow10 k
five_two zero = omega arith
five_two (suc k) =
    let e : 5 ^ k * 5 * (2 ^ k * 2) ≡ 10 * (5 ^ k * 2 ^ k) = grind arith in
    let f : 5 ^ suc k * 2 ^ suc k ≡ 5 ^ k * 5 * (2 ^ k * 2) = rw (pow-suc 5 k, pow-suc 2 k) refl in
    f ∙ e ∙ ap (λ (m : ℕ). 10 * m) (five_two k)

-- `d` times `p` is `c` units and a part of one, the unit being `n`.
module _ (d p c part n : ℕ) (product : d * p ≡ c * n + part) (nonzero_p : 0 < p) where
  -- Below the cutoff `f`, which has `l` for its places.
  pub below_cutoff : (f l t : ℕ) → d * l < f * n → f * p ≡ l * t → c < t
  below_cutoff f l t cut cutoff =
      let a : d * l * p ≡ d * p * l = grind arith in
      let b : d * p * l ≡ (c * n + part) * l = ap (λ (m : ℕ). m * l) product in
      let g : (c * n + part) * l ≡ c * (n * l) + part * l = grind arith in
      let h = times_at_most (d * l + 1) (f * n) p (omega (arith, cut)) in
      let i = next_times (d * l) p in
      let j : f * n * p ≡ f * p * n = grind arith in
      let k : f * p * n ≡ l * t * n = ap (λ (m : ℕ). m * n) cutoff in
      let m : l * t * n ≡ t * (n * l) = grind arith in
      cancel_lt c t (n * l) (
        at (d * l * p) (f * n * p) (omega (arith, h, i)) (omega (arith, a, b, g))
          (omega (arith, j, k, m)))
    where
      at : (x y : ℕ) → x + p ≤ y → c * (n * l) ≤ x → y ≡ t * (n * l) → c * (n * l) < t * (n * l)
      at x y h h' e = omega (arith, h, h', e, nonzero_p)

  next_units : part < n → d * p < (c + 1) * n
  next_units small = omega (arith, product, small, next_times c n)

  -- At the cutoff or above.
  pub above_cutoff : (f l t : ℕ) → f * n ≤ d * l → f * p ≡ l * t → part < n → 0 < l → t ≤ c
  above_cutoff f l t cut cutoff small some_l =
      let a : d * l * p ≡ d * p * l = grind arith in
      let h = times_at_most (f * n) (d * l) p cut in
      let j : f * n * p ≡ f * p * n = grind arith in
      let k : f * p * n ≡ l * t * n = ap (λ (m : ℕ). m * n) cutoff in
      let m : l * t * n ≡ t * (n * l) = grind arith in
      let below = times_at_most (d * p + 1) ((c + 1) * n) l (omega (arith, next_units small)) in
      let e = next_times (d * p) l in
      let q : (c + 1) * n * l ≡ (c + 1) * (n * l) = mul_assoc (c + 1) n l in
      let less_next =
        cancel_lt t (c + 1) (n * l) (omega (arith, a, h, j, k, m, below, e, q, some_l)) in
      omega (arith, less_next)

  -- A number that does not start with a zero, times one that has `10 * t` at least.
  pub above_power : (t : ℕ) → n ≤ 10 * d → 10 * t ≤ p → part < n → t ≤ c
  above_power t first power small =
      let h = mul-le-mul {n₁ = n} {m₁ = 10 * t} {n₂ = 10 * d} {m₂ = p} first power in
      let a : n * (10 * t) ≡ 10 * (t * n) = grind arith in
      let b : 10 * d * p ≡ 10 * (d * p) = mul_assoc 10 d p in
      let less_next = cancel_lt t (c + 1) n (omega (arith, h, a, b, next_units small)) in
      omega (arith, less_next)

  pub below_power : (t : ℕ) → d < n → p < t → c < t
  below_power t first power =
      let h =
        mul-le-mul {n₁ = d + 1} {m₁ = p} {n₂ = n} {m₂ = t} (omega (arith, first))
          (omega (arith, power)) in
      let a = next_times d p in
      let b = mul_comm n t in cancel_lt c t n (omega (arith, h, a, b, product, nonzero_p))
