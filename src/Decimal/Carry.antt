-- ===== src/Decimal/Carry.antt =====
-- fflib/v1/decimal.go: the digits that `RoundUp` keeps, and one more.
use ffjson.Decimal.{carry}
use ffjson.Decimal.Value.{pow10, value, value_from, mul_ten, sub_suc}
use ffjson.Prelude.{
  ℕ, zero, suc, ◌+◌, ◌-◌, ◌*◌, ◌≤◌, ◌<◌, ◌≡◌, sym, ap, ◌∙◌, inl, inr, Option, none, some, [], ◌∷◌,
  ltb, ltb-false, if◌then◌else◌, Bytes, Bool-cases, length, take, drop, arith,
}

abbrev pub IsDigits : Bytes → Type 0
IsDigits [] = Unit
IsDigits (c ∷ t) = (b'0' ≤ c) × (c ≤ b'9') × IsDigits t

pub IsDigits-take : (n : ℕ) (t : Bytes) → IsDigits t → IsDigits (take n t)
IsDigits-take zero t h = tt
IsDigits-take (suc n) [] h = tt
IsDigits-take (suc n) (c ∷ t) (low, high, h) = (low, high, IsDigits-take n t h)

pub IsDigits-drop : (n : ℕ) (t : Bytes) → IsDigits t → IsDigits (drop n t)
IsDigits-drop zero t h = h
IsDigits-drop (suc n) [] h = tt
IsDigits-drop (suc n) (c ∷ t) (low, high, h) = IsDigits-drop n t h

split_ten : (n x p : ℕ) → (n * 10 + x) * p ≡ n * (10 * p) + x * p
split_ten n x p = grind (arith, mul_ten n p)

pub value_from-split : (n : ℕ) (t : Bytes) → value_from n t ≡ n * pow10 (length t) + value t
value_from-split n [] = omega arith
value_from-split n (c ∷ t) =
    let here = value_from-split (n * 10 + (c - b'0')) t in
    let there = value_from-split (0 * 10 + (c - b'0')) t in
    let e = split_ten n (c - b'0') (pow10 (length t)) in
    let z = split_ten 0 (c - b'0') (pow10 (length t)) in omega (arith, here, there, e, z)

pub times_at_most : (x k p : ℕ) → x ≤ k → x * p ≤ k * p
times_at_most x k p le = grind arith

-- Digits spell a number below the next power of ten.
pub value-small : (t : Bytes) → IsDigits t → value t < pow10 (length t)
value-small [] h = omega arith
value-small (c ∷ t) (low, high, h) =
    let e = value_from-split (0 * 10 + (c - b'0')) t in
    let z : 0 * 10 + (c - b'0') ≡ c - b'0' = omega arith in
    let le = times_at_most (c - b'0') 9 (pow10 (length t)) (omega arith) in
    omega (arith, rw z at e, le, value-small t h)

-- One more than the digits spell.
abbrev pub Carried : ℕ → Bytes → Option Bytes → Type 0
Carried n t none = value_from n t + 1 ≡ (n + 1) * pow10 (length t)
Carried n t (some ds) =
    (length ds ≤ length t) × (value_from n ds * pow10 (length t - length ds) ≡ value_from n t + 1)

pub carry-Carried : (n : ℕ) (t : Bytes) → IsDigits t → Carried n t (carry t)
unfolding carry
carry-Carried n [] h = omega arith
carry-Carried n (c ∷ t) (low, high, h) = at (carry t) (carry-Carried (n * 10 + (c - b'0')) t h)
  where
    at :
        (o : Option Bytes)
        → Carried (n * 10 + (c - b'0')) t o
        → Carried n (c ∷ t) (elim o [
          | some t' ↦ some (c ∷ t')
          | none ↦ if ltb c b'9' then some ((c + 1) ∷ []) else none
        ])
    at (some ds) (le, e) = (omega (arith, le), rw (sub_suc (length t) (length ds)) e)
    at none e = elim (Bool-cases (ltb c b'9')) [
      | inl small ↦
          let one : suc (length t) - 1 ≡ length t = omega arith in
          let up : n * 10 + (c + 1 - b'0') ≡ n * 10 + (c - b'0') + 1 = omega arith in
          rw (small, one, up) (omega arith, sym e)
      | inr nine ↦
          let c_is : n * 10 + (c - b'0') + 1 ≡ (n + 1) * 10 =
            omega (arith, ltb-false c b'9' nine) in
          rw nine
            (e ∙ ap (λ (k : ℕ). k * pow10 (length t)) c_is ∙ mul_ten (n + 1) (pow10 (length t)))
    ]
