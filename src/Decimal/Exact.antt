-- ===== src/Decimal/Exact.antt =====
-- fflib/v1/decimal.go: what `rightShift` leaves, times the power of two, is the number.
use ffjson.Decimal.Assign.{take_all}
use ffjson.Decimal.Carry.{IsDigits}
use ffjson.Decimal.Divide.{Picks, pick_up-PicksUp}
use ffjson.Decimal.Right.{PutsDown, put_down-PutsDown, pow10-add, pow-pos}
use ffjson.Decimal.Shift.{max_shift, max_digits, Picked, put_down, shifted, right_from, right_shift}
use ffjson.Decimal.Word.{power_small}
use ffjson.Outcome.{ok}
use ffjson.Decimal.Value.{pow10, pow10-some, value, value_from, value_from-trim_digits}
use ffjson.Decimal.{
  Decimal, ℤ, pos, negsuc, pos_part, neg_part, sub_ℕ, moved, trim_digits, trim_point, trim,
}
use native.Mathlib.Nat.{mul_assoc}
use ffjson.Prelude.{
  ℕ, zero, suc, ◌+◌, ◌-◌, ◌*◌, ◌^◌, ◌≤◌, ◌<◌, ◌≡◌, refl, sym, ap, ◌∙◌, Bool, true, false, none,
  some, [], ◌∷◌, leb, leb-false, leb→le, if◌then◌else◌, Bytes, length, arith,
}

-- `b` times `q` is `a`, as numbers with their points: `value d` times a power of ten, whose exponent is the
-- point less the count of digits.
abbrev pub IsTimes : Decimal → ℕ → Decimal → Type 0
IsTimes b q a =
    (u : ℕ) × (w : ℕ) × (value b.d * q * pow10 u ≡ value a.d * pow10 w)
    × (pos_part b.dp + neg_part a.dp + length a.d + w
        ≡ pos_part a.dp + neg_part b.dp + length b.d + u)

pub sub_ℕ-parts : (a b : ℕ) → pos_part (sub_ℕ a b) + b ≡ a + neg_part (sub_ℕ a b)
sub_ℕ-parts a b = at (leb b a) refl
  where
    at :
        (t : Bool)
        → leb b a ≡ t
        → pos_part (if t then pos (a - b) else negsuc (b - a - 1)) + b
          ≡ a + neg_part (if t then pos (a - b) else negsuc (b - a - 1))
    at true e = omega (arith, leb→le b a e)
    at false e = omega (arith, leb-false b a e)

-- The point stays where digits are left.
pub trim_point-some : (ds : Bytes) (dp : ℤ) → 0 < value ds → trim_point ds dp ≡ dp
trim_point-some [] dp h = absurd (omega (arith, h))
trim_point-some (c ∷ t) dp h = refl

pub product-pos : (x y : ℕ) → 0 < x * y → 0 < x
product-pos zero y h = absurd (let z : zero * y ≡ 0 = omega arith in omega (arith, h, z))
product-pos (suc x) y h = omega arith

module _ (a : Decimal) (k : ℕ) where
  shifted-IsTimes :
      (out rest : Bytes) (n r z : ℕ)
      → length out ≤ max_digits
      → PutsDown (2 ^ k) n rest out
      → value_from n rest ≡ value a.d * pow10 z
      → r + length rest ≡ length a.d + z
      → 0 < value a.d
      → IsTimes (shifted a out (moved a.dp 1 r)) (2 ^ k) a
  unfolding shifted trim moved
  shifted-IsTimes out rest n r z fits (e, size, digits, put) picked places positive =
      let (shorter, trimmed) = value_from-trim_digits 0 out in
      let b = trim_digits out in
      let g = length out - length b in
      let E = pow10 e in
      let whole : value b * 2 ^ k * pow10 (suc g) ≡ value a.d * pow10 (z + e) =
        flat (value out) (value b) (pow10 g) (2 ^ k) E (value_from n rest) trimmed put
        ∙ ap (λ (m : ℕ). m * E) picked
        ∙ mul_assoc (value a.d) (pow10 z) E
        ∙ ap (λ (m : ℕ). value a.d * m) (sym (pow10-add z e)) in
      let some_value : 0 < value b = product-pos (value b) (2 ^ k) (
        product-pos (value b * 2 ^ k) (pow10 (suc g))
          (rw whole (times_pos (value a.d) (pow10 (z + e)) positive (pow10-some (z + e))))) in
      let point = sub_ℕ-parts (pos_part a.dp + 1) (neg_part a.dp + r) in
      rw
        (
          take_all max_digits out fits,
          trim_point-some b (sub_ℕ (pos_part a.dp + 1) (neg_part a.dp + r)) some_value,
        )
        (suc g, z + e, whole, omega (arith, point, places, size, shorter))
    where
      flat : (v t g p E w : ℕ) → t * g ≡ v → v * (10 * p) ≡ w * E → t * p * (10 * g) ≡ w * E
      flat v t g p E w e e' =
          (let a : t * p * (10 * g) ≡ t * g * (10 * p) = grind arith in a)
          ∙ ap (λ (m : ℕ). m * (10 * p)) e
          ∙ e'

      times_pos : (x y : ℕ) → 0 < x → 0 < y → 0 < x * y
      times_pos x y h h' = grind arith

-- rightShift by `k`, at most `maxShift`, of digits that spell a number that is not 0, where the number
-- of digits and `k` are below 800 together: it ends, and the result, times two to the power of `k`, is
-- the number, its point included.
pub right_shift-IsTimes :
    (k : ℕ) (a : Decimal)
    → k ≤ max_shift
    → IsDigits a.d
    → 0 < value a.d
    → length a.d + k < max_digits
    → (b : Decimal) × (right_shift k a ≡ ok b) × IsTimes b (2 ^ k) a
unfolding right_shift right_from
right_shift-IsTimes k a below digits positive fits =
    let (picked, done, picks) =
      pick_up-PicksUp (2 ^ k) (pow-pos k) (power_small k below) 0 0 a.d (omega (arith, pow-pos k))
        digits in
    rw done (at picked picks)
  where
    at :
        (picked : Picked)
        → Picks (2 ^ k) 0 0 a.d picked
        → (b : Decimal) × (right_from a k picked ≡ ok b) × IsTimes b (2 ^ k) a
    at none empty = absurd (omega (arith, positive, empty))
    at (some ((n, r), rest)) (z, places, picked, at_least, below_ten, in_rest, shorter) =
        let (puts, size) = put_down-PutsDown k n rest below below_ten in_rest in
        (
          _,
          refl,
          shifted-IsTimes a k (put_down k (2 ^ k) n rest) rest n r z
              (omega (arith, size, shorter, fits)) puts picked (omega (arith, places)) positive,
        )
