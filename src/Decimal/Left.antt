-- ===== src/Decimal/Left.antt =====
-- fflib/v1/decimal.go: the digits of `leftShift`, and how many it adds.
use ffjson.Decimal.Carry.{IsDigits, value_from-split}
use ffjson.Decimal.Right.{times_sum}
use ffjson.Decimal.Shift.{digit, multiply}
use ffjson.Decimal.Value.{pow10, value, value_from}
use ffjson.Prelude.{
  ℕ, ◌+◌, ◌-◌, ◌*◌, ◌/◌, ◌%◌, ◌^◌, ◌≡◌, refl, sym, ap, ◌∙◌, [], ◌∷◌, Bytes, length, arith,
}

pub value-cons : (c : ℕ) (t : Bytes) → value (c ∷ t) ≡ (c - b'0') * pow10 (length t) + value t
value-cons c t =
    let z : 0 * 10 + (c - b'0') ≡ c - b'0' = omega arith in
    ap (λ (k : ℕ). value_from k t) z ∙ value_from-split (c - b'0') t

-- The product with a power of two, as the digits put down and the number that is carried.
unfoldable pub Multiplied : ℕ → Bytes → Bytes × ℕ → Type 0
Multiplied k ds (out, carry) =
    (length out ≡ length ds)
    × IsDigits out
    × (carry * pow10 (length ds) + value out ≡ value ds * 2 ^ k)

multiply_step :
    (c p L n carry v w : ℕ)
    → n ≡ carry + c * p
    → carry * L + v ≡ w * p
    → n / 10 * (10 * L) + ((n - 10 * (n / 10)) * L + v) ≡ (c * L + w) * p
multiply_step c p L n carry v w e e' =
    let m = n - 10 * (n / 10) in
    let split : n ≡ n / 10 * 10 + m = omega arith in
    let a : n / 10 * (10 * L) ≡ n / 10 * 10 * L = grind arith in
    let b = times_sum (n / 10 * 10) m L in
    let d = times_sum carry (c * p) L in
    let f = times_sum (c * L) w p in
    let g : c * L * p ≡ c * p * L = grind arith in
    let h : n * L ≡ (n / 10 * 10 + m) * L = ap (λ (k : ℕ). k * L) split in
    let i : n * L ≡ (carry + c * p) * L = ap (λ (k : ℕ). k * L) e in
    omega (arith, a, b, d, f, g, h, i, e')

pub multiply-Multiplied : (k : ℕ) (ds : Bytes) → Multiplied k ds (multiply k ds)
unfolding multiply Multiplied
multiply-Multiplied k [] = (refl, tt, omega arith)
multiply-Multiplied k (c ∷ t) =
    let (size, digits, product) = multiply-Multiplied k t in
    let out = (multiply k t).0 in
    let carry = (multiply k t).1 in
    let n = carry + (c - b'0') * 2 ^ k in
    let low : (n - 10 * (n / 10) + b'0') % 256 - b'0' ≡ n - 10 * (n / 10) = omega arith in
    let put : value (digit (n - 10 * (n / 10)) ∷ out)
        ≡ (n - 10 * (n / 10)) * pow10 (length t) + value out =
      value-cons (digit (n - 10 * (n / 10))) out
      ∙ ap (λ (m : ℕ). m * pow10 (length out) + value out) low
      ∙ ap (λ (m : ℕ). (n - 10 * (n / 10)) * pow10 m + value out) size in
    (
      omega (arith, size),
      (omega arith, omega arith, digits),
      ap (λ (m : ℕ). n / 10 * (10 * pow10 (length t)) + m) put
          ∙ multiply_step (c - b'0') (2 ^ k) (pow10 (length t)) n carry (value out) (value t) refl
              product
          ∙ ap (λ (m : ℕ). m * 2 ^ k) (sym (value-cons c t)),
    )
