-- ===== src/Float/Numbers.antt =====
-- fflib/v1/ftoa.go: the text of a number is a number of JSON.
use ffjson.Decimal.Carry.{IsDigits, IsDigits-take, IsDigits-drop}
use ffjson.Decimal.{ℤ, pos, negsuc, pos_part, neg_part, moved}
use ffjson.Float.{
  minus_sign, byte_digit, first_digit, more_digits, e_fraction, exponent_digits, exponent_text,
  fmt_e,
}
use ffjson.Lexer.Number.Grammar.{
  Digits, no_digit, one_digit, Sign, unsigned, minus as negative, IntPart, lone_zero, nonzero,
  Fraction, whole, point, Exponent, signed, IsE, IsSign, NumberText,
}
use ffjson.Lexer.Number.{is_digit}
use ffjson.Lexer.{Tok}
use ffjson.Prelude.{
  ℕ, zero, suc, ◌+◌, ◌-◌, ◌/◌, ◌%◌, ◌≤◌, ◌<◌, ◌≡◌, refl, Bool, true, false, inl, inr, [], ◌∷◌, ◌++◌,
  ltb, ◌==◌, if◌then◌else◌, Bytes, Bool-cases, ltb→lt, length-append, length-take, length-drop,
  length, drop, slice, replicate, arith,
}

-- The digits of a number: the first one is not a zero, and a number without digits has no digit in
-- front of the point.
abbrev pub IsDecimal : Bytes → ℤ → Type 0
IsDecimal [] dp = pos_part dp ≡ 0
IsDecimal (c ∷ t) dp = (b'1' ≤ c) × (c ≤ b'9') × IsDigits t

pub range-is_digit : (c : ℕ) → b'0' ≤ c → c ≤ b'9' → is_digit c ≡ true
range-is_digit c low high = ground arith

pub IsDigits-Digits : (t : Bytes) → IsDigits t → Digits t
IsDigits-Digits [] h = no_digit
IsDigits-Digits (c ∷ t) (low, high, h) = one_digit (range-is_digit c low high) (IsDigits-Digits t h)

pub zeros-Digits : (n : ℕ) → Digits (replicate n b'0')
zeros-Digits zero = no_digit
zeros-Digits (suc n) = one_digit (range-is_digit b'0' (omega arith) (omega arith)) (zeros-Digits n)

pub Digits-append : (s t : Bytes) → Digits s → Digits t → Digits (s ++ t)
Digits-append [] t h h' = h'
Digits-append (c ∷ s) t (one_digit d h) h' = one_digit d (Digits-append s t h h')

replicate-length : (n : ℕ) → length {A = ℕ} (replicate n b'0') ≡ n
replicate-length zero = refl
replicate-length (suc n) = let e = replicate-length n in omega (arith, e)

-- One digit or more behind the point.
point-Fraction : (ds : Bytes) → Digits ds → 1 ≤ length ds → Fraction (b'.' ∷ ds) Tok.double
point-Fraction [] h le = absurd (omega (arith, le))
point-Fraction (c ∷ ds) (one_digit d h) le = point d h

pub IsDecimal-IsDigits : (d : Bytes) (dp : ℤ) → IsDecimal d dp → IsDigits d
IsDecimal-IsDigits [] dp h = tt
IsDecimal-IsDigits (c ∷ t) dp (low, high, h) = (omega (arith, low), high, h)

more_digits-Digits :
    (d : Bytes) (prec : ℕ)
    → IsDigits d
    → 1 ≤ prec
    → Digits (more_digits d prec) × (1 ≤ length (more_digits d prec))
unfolding more_digits
more_digits-Digits d prec h le =
    at (if ltb (length d) (prec + 1) then length d else prec + 1)
      (at_most (ltb (length d) (prec + 1)) refl)
  where
    at_most :
        (b : Bool) → ltb (length d) (prec + 1) ≡ b → (if b then length d else prec + 1) ≤ length d
    at_most true e = omega arith
    at_most false e = ground (arith, e)

    at :
        (m : ℕ)
        → m ≤ length d
        → Digits
            (if ltb 1 m then slice d 1 m ++ replicate (prec + 1 - m) b'0' else replicate prec b'0')
          × (1
              ≤ length (
                  if ltb 1 m
                  then slice d 1 m ++ replicate (prec + 1 - m) b'0'
                  else replicate prec b'0'))
    at m inside = elim (Bool-cases (ltb 1 m)) [
      | inl more ↦
          let room = length-take (m - 1) (drop 1 d) (omega (arith, length-drop 1 d, inside)) in
          let size = length-append (slice d 1 m) (replicate (prec + 1 - m) b'0') in
          rw more (
            Digits-append (slice d 1 m) (replicate (prec + 1 - m) b'0')
                (IsDigits-Digits (slice d 1 m)
                  (IsDigits-take (m - 1) (drop 1 d) (IsDigits-drop 1 d h)))
                (zeros-Digits (prec + 1 - m)),
            omega (arith, size, room, ltb→lt 1 m more),
          )
      | inr none_more ↦ rw none_more (zeros-Digits prec, omega (arith, replicate-length prec, le))
    ]

e_fraction-Fraction :
    (d : Bytes) (prec : ℤ) → IsDigits d → (tok : Tok) × Fraction (e_fraction d prec) tok
unfolding e_fraction
e_fraction-Fraction d (negsuc n) h = (Tok.integer, whole)
e_fraction-Fraction d (pos zero) h = (Tok.integer, whole)
e_fraction-Fraction d (pos (suc n)) h =
    let (digits, some_digit) = more_digits-Digits d (suc n) h (omega arith) in
    (Tok.double, point-Fraction (more_digits d (suc n)) digits some_digit)

byte_digit-is_digit : (n : ℕ) → n < 10 → is_digit (byte_digit n) ≡ true
byte_digit-is_digit n small =
    range-is_digit (byte_digit n) (omega (arith, small)) (omega (arith, small))

-- An exponent of three digits at most.
exponent_digits-Exponent :
    (fmt c e : ℕ) (tok : Tok)
    → IsE fmt
    → IsSign c
    → e < 1000
    → Exponent (fmt ∷ c ∷ exponent_digits e) tok Tok.double
unfolding exponent_digits
exponent_digits-Exponent fmt c e tok is_e is_sign small = elim (Bool-cases (ltb e 10)) [
  | inl one ↦
      let last = byte_digit-is_digit e (ltb→lt e 10 one) in
      rw one (
        signed is_e is_sign (range-is_digit b'0' (omega arith) (omega arith))
          (one_digit last no_digit))
  | inr more ↦
      let last = byte_digit-is_digit (e % 10) (omega arith) in
      elim (Bool-cases (ltb e 100)) [
        | inl two ↦
            let tens = byte_digit-is_digit (e / 10) (omega (arith, ltb→lt e 100 two)) in
            rw (more, two) (signed is_e is_sign tens (one_digit last no_digit))
        | inr three ↦
            let hundreds = byte_digit-is_digit (e / 100) (omega (arith, small)) in
            let middle : is_digit ((e / 10 % 256 % 10 + b'0') % 256) ≡ true =
              range-is_digit ((e / 10 % 256 % 10 + b'0') % 256) (omega (arith, small))
                (omega (arith, small)) in
            rw (more, three)
              (signed is_e is_sign hundreds (one_digit middle (one_digit last no_digit)))
      ]
]

-- An int that is less than a thousand, and more than a thousand below 0.
abbrev pub IsShort : ℤ → Type 0
IsShort z = pos_part z + neg_part z < 1000

exponent_text-Exponent :
    (fmt : ℕ) (z : ℤ) (tok : Tok)
    → IsE fmt
    → IsShort z
    → Exponent (fmt ∷ exponent_text z) tok Tok.double
unfolding exponent_text
exponent_text-Exponent fmt (pos e) tok is_e short =
    exponent_digits-Exponent fmt b'+' e tok is_e (inl refl) (omega (arith, short))
exponent_text-Exponent fmt (negsuc e) tok is_e short =
    exponent_digits-Exponent fmt b'-' (suc e) tok is_e (inr refl) (omega (arith, short))

pub minus_sign-Sign : (neg : Bool) → Sign (minus_sign neg)
minus_sign-Sign true = negative
minus_sign-Sign false = unsigned

first_digit-IntPart : (d : Bytes) (dp : ℤ) → IsDecimal d dp → IntPart (first_digit d ∷ [])
first_digit-IntPart [] dp h = lone_zero
first_digit-IntPart (c ∷ t) dp (low, high, h) = nonzero (ground (arith, low, high)) no_digit

e_exponent-IsShort :
    (d : Bytes) (dp : ℤ)
    → IsShort (moved dp 0 1)
    → IsShort (if length d == 0 then pos 0 else moved dp 0 1)
e_exponent-IsShort [] dp short = omega arith
e_exponent-IsShort (c ∷ t) dp short =
    let e : (suc (length t) == 0) ≡ false = ground arith in rw e short

-- `fmtE` of digits, the first one not a zero, and an exponent of three digits at most.
pub fmt_e-NumberText :
    (neg : Bool) (d : Bytes) (dp prec : ℤ) (fmt : ℕ)
    → IsDecimal d dp
    → IsShort (moved dp 0 1)
    → IsE fmt
    → NumberText (fmt_e neg d dp prec fmt) Tok.double
unfolding fmt_e
fmt_e-NumberText neg d dp prec fmt h short is_e =
    let (tok, frac) = e_fraction-Fraction d prec (IsDecimal-IsDigits d dp h) in
    record {
      sign = minus_sign neg;
      int = first_digit d ∷ [];
      frac = e_fraction d prec;
      exp = fmt ∷ exponent_text (if length d == 0 then pos 0 else moved dp 0 1);
      frac_tok = tok;
      text_eq = refl;
      sign_ok = minus_sign-Sign neg;
      int_ok = first_digit-IntPart d dp h;
      frac_ok = frac;
      exp_ok = exponent_text-Exponent fmt _ tok is_e (e_exponent-IsShort d dp short);
    }
