-- ===== src/Decimal/Cutoff.antt =====
-- fflib/v1/decimal.go: `prefixIsLessThan` compares the numbers, and the rows of `leftcheats`.
use ffjson.Decimal.Carry.{IsDigits, times_at_most, value-small}
use ffjson.Decimal.Left.{value-cons}
use ffjson.Decimal.Shift.{leftcheats, prefix_is_less_than}
use ffjson.Decimal.Value.{pow10, pow10-some, value}
use native.Mathlib.Nat.{mul_comm}
use ffjson.Prelude.{
  ℕ, suc, ◌+◌, ◌-◌, ◌*◌, ◌^◌, ◌≤◌, ◌<◌, ◌≡◌, refl, ap, ◌∙◌, Bool, true, false, ◌&&◌, Option, none,
  some, [], ◌∷◌, ltb, leb, ◌==◌, ==_iff, ltb→lt, Bytes, get_elem?, length, all_below,
  all_below_sound, arith,
}

-- Each end of the digits spells a number that is not 0.
abbrev pub EndsPositive : Bytes → Type 0
EndsPositive [] = Unit
EndsPositive (y ∷ s) = (0 < value (y ∷ s)) × EndsPositive s

-- The first number is less than the second one, both with a point in front of their digits.
abbrev pub Compares : Bool → Bytes → Bytes → Type 0
Compares true b s = value b * pow10 (length s) < value s * pow10 (length b)
Compares false b s = value s * pow10 (length b) ≤ value b * pow10 (length s)

spread : (x v L S : ℕ) → (x * L + v) * (10 * S) ≡ 10 * (x * (L * S) + v * S)
spread x v L S = grind arith

fraction_small : (v L S : ℕ) → v < L → 1 ≤ S → v * S < L * S
fraction_small v L S small some_s = grind arith

-- Both numbers by their first digits and the rest, in units of `m`.
module _ (x y : ℕ) (b s : Bytes) (in_b : IsDigits b) (in_s : IsDigits s) where
  abbrev unit : ℕ
  unit = pow10 (length b) * pow10 (length s)

  first_is :
      value (x ∷ b) * (10 * pow10 (length s))
      ≡ 10 * ((x - b'0') * unit + value b * pow10 (length s))
  first_is =
      ap (λ (k : ℕ). k * (10 * pow10 (length s))) (value-cons x b)
      ∙ spread (x - b'0') (value b) (pow10 (length b)) (pow10 (length s))

  second_is :
      value (y ∷ s) * (10 * pow10 (length b))
      ≡ 10 * ((y - b'0') * unit + value s * pow10 (length b))
  second_is =
      ap (λ (k : ℕ). k * (10 * pow10 (length b))) (value-cons y s)
      ∙ spread (y - b'0') (value s) (pow10 (length s)) (pow10 (length b))
      ∙ ap (λ (k : ℕ). 10 * ((y - b'0') * k + value s * pow10 (length b)))
          (mul_comm (pow10 (length s)) (pow10 (length b)))

  first_rest : value b * pow10 (length s) < unit
  first_rest =
      fraction_small (value b) (pow10 (length b)) (pow10 (length s)) (value-small b in_b)
        (pow10-some (length s))

  second_rest : value s * pow10 (length b) < unit
  second_rest =
      let h =
        fraction_small (value s) (pow10 (length s)) (pow10 (length b)) (value-small s in_s)
          (pow10-some (length b)) in
      omega (arith, h, mul_comm (pow10 (length s)) (pow10 (length b)))

  by_first : b'0' ≤ x → x < y → Compares true (x ∷ b) (y ∷ s)
  by_first low lt =
      let le = times_at_most (x - b'0' + 1) (y - b'0') unit (omega (arith, low, lt)) in
      let next : (x - b'0' + 1) * unit ≡ (x - b'0') * unit + unit = grind arith in
      omega (arith, first_is, second_is, first_rest, le, next)

  by_first_more : b'0' ≤ y → y < x → Compares false (x ∷ b) (y ∷ s)
  by_first_more low lt =
      let le = times_at_most (y - b'0' + 1) (x - b'0') unit (omega (arith, low, lt)) in
      let next : (y - b'0' + 1) * unit ≡ (y - b'0') * unit + unit = grind arith in
      omega (arith, first_is, second_is, second_rest, le, next)

  by_rest : (t : Bool) → x ≡ y → Compares t b s → Compares t (x ∷ b) (y ∷ s)
  by_rest true e h =
      let same = ap (λ (c : ℕ). (c - b'0') * unit) e in omega (arith, first_is, second_is, same, h)
  by_rest false e h =
      let same = ap (λ (c : ℕ). (c - b'0') * unit) e in omega (arith, first_is, second_is, same, h)

pub prefix_is_less_than-Compares :
    (b s : Bytes)
    → IsDigits b
    → IsDigits s
    → EndsPositive s
    → Compares (prefix_is_less_than b s) b s
unfolding prefix_is_less_than
prefix_is_less_than-Compares b [] in_b in_s ends = omega arith
prefix_is_less_than-Compares [] (y ∷ s) in_b in_s (positive, ends) = omega (arith, positive)
prefix_is_less_than-Compares (x ∷ b) (y ∷ s) (low_x, high_x, in_b) (low_y, high_y, in_s)
      (positive, ends) =
    at (x == y) (ltb x y) refl refl (prefix_is_less_than-Compares b s in_b in_s ends)
  where
    at :
        (t t' : Bool)
        → (x == y) ≡ t
        → ltb x y ≡ t'
        → Compares (prefix_is_less_than b s) b s
        → Compares (elim t [ true ↦ prefix_is_less_than b s | false ↦ t' ]) (x ∷ b) (y ∷ s)
    at true t' e e' rest =
        by_rest x y b s in_b in_s (prefix_is_less_than b s) ((==_iff x y).0 e) rest
    at false true e e' rest = by_first x y b s in_b in_s low_x (ltb→lt x y e')
    at false false e e' rest = by_first_more x y b s in_b in_s low_y (ground (arith, e, e'))

-- The rows of the table, for a shift by one place or more: the cutoff spells five to the power of the
-- shift, and it has a digit for each place that the shift does not add.
abbrev is_digits : Bytes → Bool
is_digits [] = true
is_digits (c ∷ t) = leb b'0' c && leb c b'9' && is_digits t

abbrev ends_positive : Bytes → Bool
ends_positive [] = true
ends_positive (c ∷ t) = ltb 0 (value (c ∷ t)) && ends_positive t

is_digits-IsDigits : (t : Bytes) → is_digits t ≡ true → IsDigits t
is_digits-IsDigits [] h = tt
is_digits-IsDigits (c ∷ t) h = ground (arith, is_digits-IsDigits t)

ends_positive-EndsPositive : (t : Bytes) → ends_positive t ≡ true → EndsPositive t
ends_positive-EndsPositive [] h = tt
ends_positive-EndsPositive (c ∷ t) h = ground (arith, ends_positive-EndsPositive t)

abbrev row_ok : ℕ → Option (ℕ × Bytes) → Bool
row_ok k none = false
row_ok k (some (delta, cutoff)) =
    is_digits cutoff
    && (ends_positive cutoff
        && (value cutoff == 5 ^ k
            && (length cutoff + delta == k + 1
                && (leb (pow10 delta) (10 * 2 ^ k)
                    && (ltb (2 ^ k) (pow10 delta) && (ltb 0 delta && leb delta 9))))))

-- `delta` is the number of digits of the power of two.
unfoldable pub IsRow : ℕ → Option (ℕ × Bytes) → Type 0
IsRow k none = ⊥
IsRow k (some (delta, cutoff)) =
    IsDigits cutoff
    × EndsPositive cutoff
    × (value cutoff ≡ 5 ^ k)
    × (length cutoff + delta ≡ k + 1)
    × (pow10 delta ≤ 10 * 2 ^ k)
    × (2 ^ k < pow10 delta)
    × (0 < delta)
    × (delta ≤ 9)

rows_ok : all_below 27 (λ k. row_ok (suc k) (get_elem? leftcheats (suc k))) ≡ true
unfolding all_below leftcheats
rows_ok = refl

row_ok-IsRow : (k : ℕ) (o : Option (ℕ × Bytes)) → row_ok k o ≡ true → IsRow k o
unfolding IsRow
row_ok-IsRow k none h = absurd (ground (arith, h))
row_ok-IsRow k (some (delta, cutoff)) h =
    let digits = is_digits-IsDigits cutoff in
    let ends = ends_positive-EndsPositive cutoff in ground (arith, h, digits, ends)

pub leftcheats-IsRow : (k : ℕ) → k < 27 → IsRow (suc k) (get_elem? leftcheats (suc k))
leftcheats-IsRow k small =
    row_ok-IsRow (suc k) (get_elem? leftcheats (suc k))
      (all_below_sound 27 (λ k. row_ok (suc k) (get_elem? leftcheats (suc k))) k rows_ok small)
