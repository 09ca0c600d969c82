-- ===== src/Float/Fixed.antt =====
-- fflib/v1/ftoa.go: `fmtF` writes a number of JSON.
use ffjson.Float.Numbers.{
  IsDecimal, range-is_digit, IsDigits-Digits, zeros-Digits, Digits-append, IsDecimal-IsDigits,
  minus_sign-Sign,
}
use ffjson.Decimal.Carry.{IsDigits, IsDigits-take}
use ffjson.Decimal.{ℤ, pos, negsuc, moved}
use ffjson.Float.{minus_sign, f_integer, digit_at, f_digits, f_fraction, fmt_f}
use ffjson.Lexer.Number.Grammar.{
  Digits, no_digit, one_digit, IntPart, lone_zero, nonzero, Fraction, whole, point, plain,
  NumberText,
}
use ffjson.Lexer.Number.{is_digit}
use ffjson.Lexer.{Tok}
use ffjson.Prelude.{
  ℕ, zero, suc, ◌+◌, ◌-◌, ◌<◌, ◌≡◌, sym, ap, append-nil, Bool, true, inl, inr, [], ◌∷◌, ◌++◌, ltb,
  Bytes, Bool-cases, ltb→lt, get_or, length, take, replicate, arith,
}

digits_part :
    (c : ℕ) (t : Bytes) (m places : ℕ)
    → IsDecimal (c ∷ t) (pos 1)
    → IntPart (take (suc m) (c ∷ t) ++ replicate places b'0')
digits_part c t m places (low, high, h) = nonzero (ground (arith, low, high)) (
    Digits-append (take m t) (replicate places b'0')
      (IsDigits-Digits (take m t) (IsDigits-take m t h)) (zeros-Digits places))

f_integer-IntPart : (d : Bytes) (dp : ℤ) → IsDecimal d dp → IntPart (f_integer d dp)
unfolding f_integer
f_integer-IntPart d (pos zero) h = lone_zero
f_integer-IntPart d (negsuc n) h = lone_zero
f_integer-IntPart [] (pos (suc n)) h = absurd (omega (arith, h))
f_integer-IntPart (c ∷ t) (pos (suc n)) h = elim (Bool-cases (ltb (suc (length t)) (suc n))) [
  | inl short ↦ rw short (digits_part c t (length t) (suc n - suc (length t)) h)
  | inr long ↦ rw long (digits_part c t n (suc n - suc n) h)
]

get_or-is_digit : (d : Bytes) (j : ℕ) → IsDigits d → j < length d → is_digit (get_or d j 0) ≡ true
get_or-is_digit [] j h inside = absurd (omega (arith, inside))
get_or-is_digit (c ∷ t) zero (low, high, h) inside = range-is_digit c low high
get_or-is_digit (c ∷ t) (suc j) (low, high, h) inside =
    get_or-is_digit t j h (omega (arith, inside))

digit_at-is_digit : (d : Bytes) (z : ℤ) → IsDigits d → is_digit (digit_at d z) ≡ true
digit_at-is_digit d (negsuc j) h = range-is_digit b'0' (omega arith) (omega arith)
digit_at-is_digit d (pos j) h = elim (Bool-cases (ltb j (length d))) [
  | inl inside ↦ rw inside (get_or-is_digit d j h (ltb→lt j (length d) inside))
  | inr outside ↦ rw outside (range-is_digit b'0' (omega arith) (omega arith))
]

f_digits-Digits : (d : Bytes) (dp : ℤ) (i left : ℕ) → IsDigits d → Digits (f_digits d dp i left)
unfolding f_digits
f_digits-Digits d dp i zero h = no_digit
f_digits-Digits d dp i (suc left) h =
    one_digit (digit_at-is_digit d (moved dp i 0) h) (f_digits-Digits d dp (i + 1) left h)

f_fraction-Fraction :
    (d : Bytes) (dp prec : ℤ) → IsDigits d → (tok : Tok) × Fraction (f_fraction d dp prec) tok
unfolding f_fraction f_digits
f_fraction-Fraction d dp (negsuc n) h = (Tok.integer, whole)
f_fraction-Fraction d dp (pos zero) h = (Tok.integer, whole)
f_fraction-Fraction d dp (pos (suc n)) h =
    (Tok.double, point (digit_at-is_digit d (moved dp 0 0) h) (f_digits-Digits d dp 1 n h))

-- `fmtF` of digits, the first one not a zero.
pub fmt_f-NumberText :
    (neg : Bool) (d : Bytes) (dp prec : ℤ)
    → IsDecimal d dp
    → (tok : Tok) × NumberText (fmt_f neg d dp prec) tok
unfolding fmt_f
fmt_f-NumberText neg d dp prec h =
    let (tok, frac) = f_fraction-Fraction d dp prec (IsDecimal-IsDigits d dp h) in
    (
      tok,
      record {
        sign = minus_sign neg;
        int = f_integer d dp;
        frac = f_fraction d dp prec;
        exp = [];
        frac_tok = tok;
        text_eq =
            ap (λ t. minus_sign neg ++ (f_integer d dp ++ t))
              (sym (append-nil (f_fraction d dp prec)));
        sign_ok = minus_sign-Sign neg;
        int_ok = f_integer-IntPart d dp h;
        frac_ok = frac;
        exp_ok = plain;
      },
    )
