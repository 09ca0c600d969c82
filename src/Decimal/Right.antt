-- ===== src/Decimal/Right.antt =====
-- fflib/v1/decimal.go: `rightShift` divides by a power of two.
use ffjson.Decimal.Carry.{IsDigits, value_from-split}
use ffjson.Decimal.Shift.{
  max_shift, digit, quotient, remainder, times_ten, next_digit, put_rest, put_down,
}
use ffjson.Decimal.Word.{
  power_small, positive_word, quotient-div, remainder-sub, times_ten-mul, next_digit-add,
}
use ffjson.Decimal.Value.{pow10, value, value_from}
use native.Mathlib.Nat.{
  mul_assoc, div-mul-le_self, lt-div-mul-add, div-lt_iff_lt-mul, mul-sub as mul_sub, mul_comm,
  two-pow-succ,
}
use ffjson.Prelude.{
  ℕ, zero, suc, ◌+◌, ◌-◌, ◌*◌, ◌/◌, ◌%◌, ◌^◌, ◌≤◌, ◌<◌, ◌≡◌, refl, sym, ap, ◌∙◌, Bool, true, false,
  ◌&&◌, [], ◌∷◌, ltb, ltb-false, Bytes, length, arith,
}

-- The digits put down for a number in units of `p`, `e` of them behind those of `rest`.
abbrev pub PutsDown : ℕ → ℕ → Bytes → Bytes → Type 0
PutsDown p n rest out =
    (e : ℕ) × (length out ≡ length rest + e)
    × IsDigits out
    × (value out * (10 * p) ≡ value_from n rest * pow10 e)

pub times_sum : (x y z : ℕ) → (x + y) * z ≡ x * z + y * z
times_sum x y z = grind arith

swap_factors : (q p L E : ℕ) → q * (L * E) * (10 * p) ≡ q * p * (10 * L) * E
swap_factors q p L E = grind arith

-- The arithmetic of a round.
round_eq :
    (p q v x w L E : ℕ)
    → v * (10 * p) ≡ x * E
    → w ≡ q * p * (10 * L) + x
    → (q * (L * E) + v) * (10 * p) ≡ w * E
round_eq p q v x w L E e e' =
    times_sum (q * (L * E)) v (10 * p)
    ∙ (let a = swap_factors q p L E in
        let b = times_sum (q * p * (10 * L)) x E in
        let c : w * E ≡ (q * p * (10 * L) + x) * E = ap (λ (k : ℕ). k * E) e' in
        omega (arith, a, b, c, e))

pub pow10-add : (m n : ℕ) → pow10 (m + n) ≡ pow10 m * pow10 n
pow10-add zero n =
    let z : zero + n ≡ n = omega arith in
    rw z (let e : 1 * pow10 n ≡ pow10 n = omega arith in sym e)
pow10-add (suc m) n =
    let z : suc m + n ≡ suc (m + n) = omega arith in
    ap pow10 z ∙ ap (λ (k : ℕ). 10 * k) (pow10-add m n) ∙ sym (mul_assoc 10 (pow10 m) (pow10 n))

module _ (p n : ℕ) (positive : 0 < p) where
  abbrev left : ℕ
  left = n - n / p * p

  left_is : n ≡ n / p * p + left
  left_is = omega (arith, div-mul-le_self n p)

  left_small : left < p
  left_small = omega (arith, div-mul-le_self n p, lt-div-mul-add {a = n} {b = p} positive)

  module _ (small : n < 10 * p) where
    quotient_small : n / p < 10
    quotient_small = (div-lt_iff_lt-mul {k = p} {x = n} {y = 10} positive).1 small

    digit-value :
        (out : Bytes) → value (digit (n / p) ∷ out) ≡ n / p * pow10 (length out) + value out
    digit-value out =
        let e : 0 * 10 + ((n / p + b'0') % 256 - b'0') ≡ n / p = omega (arith, quotient_small) in
        ap (λ (k : ℕ). value_from k out) e ∙ value_from-split (n / p) out

    digit-IsDigits : (out : Bytes) → IsDigits out → IsDigits (digit (n / p) ∷ out)
    digit-IsDigits out h = (omega (arith, quotient_small), omega (arith, quotient_small), h)

    -- A digit of the number is picked up behind the one that is put down.
    puts_next :
        (c : ℕ) (t out : Bytes)
        → PutsDown p (left * 10 + (c - b'0')) t out
        → PutsDown p n (c ∷ t) (digit (n / p) ∷ out)
    puts_next c t out (e, size, digits, spelled) =
        let q = n / p in
        let L = pow10 (length t) in
        let behind = value_from-split (left * 10 + (c - b'0')) t in
        let whole = value_from-split (n * 10 + (c - b'0')) t in
        let x = value_from (left * 10 + (c - b'0')) t in
        let parts : value_from n (c ∷ t) ≡ q * p * (10 * L) + x =
          whole
          ∙ regroup (q * p) left (c - b'0') L (value t) n left_is
          ∙ ap (λ (k : ℕ). q * p * (10 * L) + k) (sym behind) in
        let width : pow10 (length out) ≡ L * pow10 e = ap pow10 size ∙ pow10-add (length t) e in
        let put : value (digit q ∷ out) ≡ q * (L * pow10 e) + value out =
          digit-value out ∙ ap (λ (k : ℕ). q * k + value out) width in
        (
          e,
          omega (arith, size),
          digit-IsDigits out digits,
          ap (λ (k : ℕ). k * (10 * p)) put
              ∙ round_eq p q (value out) x (value_from n (c ∷ t)) L (pow10 e) spelled parts,
        )
      where
        regroup :
            (y s c L v m : ℕ)
            → m ≡ y + s
            → (m * 10 + c) * L + v ≡ y * (10 * L) + ((s * 10 + c) * L + v)
        regroup y s c L v m e = rw e (grind arith)

    -- A digit with nothing left to pick up: the number moves on by a zero.
    puts_last :
        (out : Bytes) → PutsDown p (left * 10) [] out → PutsDown p n [] (digit (n / p) ∷ out)
    puts_last out (e, size, digits, spelled) =
        let q = n / p in
        let parts : n * 10 ≡ q * p * (10 * 1) + left * 10 = omega (arith, left_is) in
        let width : pow10 (length out) ≡ 1 * pow10 e =
          let z : length out ≡ e = omega (arith, size) in
          ap pow10 z ∙ (let o : pow10 e ≡ 1 * pow10 e = omega arith in o) in
        let put : value (digit q ∷ out) ≡ q * (1 * pow10 e) + value out =
          digit-value out ∙ ap (λ (k : ℕ). q * k + value out) width in
        (
          suc e,
          omega (arith, size),
          digit-IsDigits out digits,
          ap (λ (k : ℕ). k * (10 * p)) put
              ∙ round_eq p q (value out) (left * 10) (n * 10) 1 (pow10 e) spelled parts
              ∙ mul_assoc n 10 (pow10 e),
        )

    -- Where `p` divides the number times a power of two, it divides what is left times it.
    left_multiple : (m f : ℕ) → n * f ≡ m * p → left * f ≡ (m - n / p * f) * p
    left_multiple m f h =
        let q = n / p in
        let a : n * f ≡ (q * p + left) * f = ap (λ (k : ℕ). k * f) left_is in
        let b = times_sum (q * p) left f in
        let c : q * p * f ≡ p * (q * f) = grind arith in
        let d = mul_sub p m (q * f) in
        let g = mul_comm p (m - q * f) in let o = mul_comm p m in omega (arith, a, b, c, d, g, o, h)

small_multiple : (j p s : ℕ) → s ≡ j * p → s < p → s ≡ 0
small_multiple zero p s e small = omega (arith, e)
small_multiple (suc j) p s e small =
    absurd (omega (arith, e, small, (let h : suc j * p ≡ j * p + p = grind arith in h)))

doubled : (s g : ℕ) → s * 10 * 2 ^ g ≡ 5 * (s * 2 ^ suc g)
doubled s g = rw (two-pow-succ g) (grind arith)

five_times : (j p : ℕ) → 5 * (j * p) ≡ 5 * j * p
five_times j p = sym (mul_assoc 5 j p)

-- A round of the third loop, without the bounds of the int.
put_rest-suc :
    (f p n : ℕ)
    → 0 < p
    → p ≤ 2 ^ 27
    → n < 10 * p
    → put_rest (suc f) p n
      ≡ (elim (ltb 0 n) [ true ↦ digit (n / p) ∷ put_rest f p ((n - n / p * p) * 10) | false ↦ [] ])
put_rest-suc f p n positive word small =
    let less_left : n - n / p * p < 10 * p = omega (arith, left_small p n positive) in
    let round : put_rest (suc f) p n ≡ (elim (ltb 0 n && ltb n (2 ^ 63)) [
      | true ↦ digit (quotient p n) ∷ put_rest f p (times_ten (remainder p n))
      | false ↦ []
    ]) =
      unfold put_rest in refl in
    let sign : (ltb 0 n && ltb n (2 ^ 63)) ≡ ltb 0 n =
      rw (positive_word p n word small) (and-true (ltb 0 n)) in
    let put : digit (quotient p n) ∷ put_rest f p (times_ten (remainder p n))
        ≡ digit (n / p) ∷ put_rest f p ((n - n / p * p) * 10) =
      rw
        (
          quotient-div p n word small,
          remainder-sub p n word small,
          times_ten-mul p (n - n / p * p) word less_left,
        )
        refl in
    round
    ∙ ap
        (λ (b : Bool). elim b [
          | true ↦ digit (quotient p n) ∷ put_rest f p (times_ten (remainder p n))
          | false ↦ []
        ])
        sign
    ∙ ap (λ (t : Bytes). elim (ltb 0 n) [ true ↦ t | false ↦ [] ]) put
  where
    and-true : (b : Bool) → (b && true) ≡ b
    and-true true = refl
    and-true false = refl

rest_step :
    (f p n : ℕ)
    → 0 < p
    → p ≤ 2 ^ 27
    → n < 10 * p
    → PutsDown p ((n - n / p * p) * 10) [] (put_rest f p ((n - n / p * p) * 10))
      × (length (put_rest f p ((n - n / p * p) * 10)) ≤ f)
    → PutsDown p n [] (put_rest (suc f) p n) × (length (put_rest (suc f) p n) ≤ suc f)
rest_step f p n positive word small (puts, size) =
    rw (put_rest-suc f p n positive word small) (at (ltb 0 n) refl)
  where
    at :
        (b : Bool)
        → ltb 0 n ≡ b
        → PutsDown p n []
            (elim b [ true ↦ digit (n / p) ∷ put_rest f p ((n - n / p * p) * 10) | false ↦ [] ])
          × (length
                (elim b [ true ↦ digit (n / p) ∷ put_rest f p ((n - n / p * p) * 10) | false ↦ [] ])
              ≤ suc f)
    at true more = (
      puts_last p n positive small (put_rest f p ((n - n / p * p) * 10)) puts,
      omega (arith, size),
    )
    at false none_left =
        let z : n ≡ 0 = omega (arith, ltb-false 0 n none_left) in
        ((0, omega arith, tt, omega (arith, z)), omega arith)

pub pow-pos : (k : ℕ) → 0 < 2 ^ k
pow-pos zero = omega arith
pow-pos (suc k) = omega (arith, two-pow-succ k, pow-pos k)

put_rest-PutsDown :
    (f p n m : ℕ)
    → 0 < p
    → p ≤ 2 ^ 27
    → n < 10 * p
    → n * 2 ^ f ≡ m * p
    → PutsDown p n [] (put_rest (suc f) p n) × (length (put_rest (suc f) p n) ≤ suc f)
unfolding put_rest
put_rest-PutsDown zero p n m positive word small divides =
    let s = n - n / p * p in
    let one : s * 1 ≡ (m - n / p * 1) * p = left_multiple p n positive small m 1 divides in
    let z : s * 10 ≡ 0 =
      let none_left =
        small_multiple (m - n / p * 1) p s (omega (arith, one)) (left_small p n positive) in
      omega (arith, none_left) in
    rest_step zero p n positive word small (rw z ((0, omega arith, tt, omega arith), omega arith))
put_rest-PutsDown (suc f) p n m positive word small divides =
    let s = n - n / p * p in
    let j = m - n / p * 2 ^ suc f in
    let e : s * 10 * 2 ^ f ≡ 5 * j * p =
      doubled s f
      ∙ ap (λ (k : ℕ). 5 * k) (left_multiple p n positive small m (2 ^ suc f) divides)
      ∙ five_times j p in
    let less_left = left_small p n positive in
    rest_step (suc f) p n positive word small
      (put_rest-PutsDown f p (s * 10) (5 * j) positive word (omega (arith, less_left)) e)

-- A round of the second loop, without the bounds of the int.
put_down-cons :
    (k p n c : ℕ) (t : Bytes)
    → 0 < p
    → p ≤ 2 ^ 27
    → n < 10 * p
    → b'0' ≤ c
    → c ≤ b'9'
    → put_down k p n (c ∷ t) ≡ digit (n / p) ∷ put_down k p ((n - n / p * p) * 10 + (c - b'0')) t
put_down-cons k p n c t positive word small low high =
    let less_left : n - n / p * p < 10 * p = omega (arith, left_small p n positive) in
    let round : put_down k p n (c ∷ t)
        ≡ digit (quotient p n) ∷ put_down k p (next_digit (remainder p n) c) t =
      unfold put_down in refl in
    round
    ∙ rw
        (
          quotient-div p n word small,
          remainder-sub p n word small,
          next_digit-add p (n - n / p * p) word less_left c low high,
        )
        refl

-- The second loop and the third, of a number that the first one has picked up.
pub put_down-PutsDown :
    (k n : ℕ) (rest : Bytes)
    → k ≤ max_shift
    → n < 10 * 2 ^ k
    → IsDigits rest
    → PutsDown (2 ^ k) n rest (put_down k (2 ^ k) n rest)
      × (length (put_down k (2 ^ k) n rest) ≤ length rest + k + 1)
put_down-PutsDown k n [] below small digits =
    let last : put_down k (2 ^ k) n [] ≡ put_rest (suc k) (2 ^ k) n = unfold put_down in refl in
    let (puts, size) =
      put_rest-PutsDown k (2 ^ k) n n (pow-pos k) (power_small k below) small refl in
    rw last (puts, omega (arith, size))
put_down-PutsDown k n (c ∷ t) below small (low, high, digits) =
    let p = 2 ^ k in
    let word = power_small k below in
    let less_left = left_small p n (pow-pos k) in
    let (puts, size) =
      put_down-PutsDown k ((n - n / p * p) * 10 + (c - b'0')) t below
        (omega (arith, less_left, low, high)) digits in
    rw (put_down-cons k p n c t (pow-pos k) word small low high)
      (puts_next p n (pow-pos k) small c t _ puts, omega (arith, size))
