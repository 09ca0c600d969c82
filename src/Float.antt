-- ===== src/Float.antt =====
-- fflib/v1/ftoa.go: the layout of the digits of a floating-point number. The digits are `digs.d[0:nd]`,
-- the bytes are those written to `dst`, and an int is a ℤ.
pub mod Numbers
pub mod Fixed
pub mod Lexed
pub mod Append
use ffjson.Decimal.{ℤ, pos, negsuc, pos_part, neg_part, sub_ℕ, moved}
use ffjson.Prelude.{
  ℕ, zero, suc, ◌+◌, ◌-◌, ◌/◌, ◌%◌, Bool, true, false, ◌&&◌, ◌||◌, not, [], ◌∷◌, ◌++◌, ltb, leb,
  ◌==◌, if◌then◌else◌, Bytes, get_or, length, take, drop, slice, replicate,
}

-- a - b
abbrev pub sub_ints : ℤ → ℤ → ℤ
sub_ints a b = sub_ℕ (pos_part a + neg_part b) (neg_part a + pos_part b)

-- a < b
abbrev pub less : ℤ → ℤ → Bool
less a b = ltb (pos_part a + neg_part b) (neg_part a + pos_part b)

abbrev pub minus_sign : Bool → Bytes
minus_sign neg = if neg then b'-' ∷ [] else []

-- `d.d[0]`, or a zero where there is no digit.
abbrev pub first_digit : Bytes → ℕ
first_digit [] = b'0'
first_digit (c ∷ t) = c

-- The digits `1` to `prec`, with zeros where there are none.
pub more_digits : Bytes → ℕ → Bytes
more_digits d prec =
    let m = if ltb (length d) (prec + 1) then length d else prec + 1 in
    if ltb 1 m then slice d 1 m ++ replicate (prec + 1 - m) b'0' else replicate prec b'0'

-- `.moredigits`
pub e_fraction : Bytes → ℤ → Bytes
unfolding more_digits
e_fraction d (negsuc n) = []
e_fraction d (pos zero) = []
e_fraction d (pos (suc n)) = b'.' ∷ more_digits d (suc n)

-- `byte(n) + '0'`
abbrev pub byte_digit : ℕ → ℕ
byte_digit n = (n % 256 + b'0') % 256

-- `dd or ddd`, for the exponent without its sign.
pub exponent_digits : ℕ → Bytes
exponent_digits e =
    if ltb e 10
    then b'0' ∷ byte_digit e ∷ []
    else if ltb e 100
    then byte_digit (e / 10) ∷ byte_digit (e % 10) ∷ []
    else byte_digit (e / 100) ∷ (e / 10 % 256 % 10 + b'0') % 256 ∷ byte_digit (e % 10) ∷ []

-- `e±` and the exponent.
pub exponent_text : ℤ → Bytes
unfolding exponent_digits
exponent_text (pos e) = b'+' ∷ exponent_digits e
exponent_text (negsuc e) = b'-' ∷ exponent_digits (suc e)

-- `fmtE`
pub fmt_e : Bool → Bytes → ℤ → ℤ → ℕ → Bytes
unfolding e_fraction exponent_text
fmt_e neg d dp prec fmt =
    minus_sign neg
    ++ (first_digit d
        ∷ (e_fraction d prec
            ++ (fmt ∷ exponent_text (if length d == 0 then pos 0 else moved dp 0 1))))

-- The integer, padded with zeros.
pub f_integer : Bytes → ℤ → Bytes
f_integer d (pos zero) = b'0' ∷ []
f_integer d (pos (suc n)) =
    let m = if ltb (length d) (suc n) then length d else suc n in
    take m d ++ replicate (suc n - m) b'0'
f_integer d (negsuc n) = b'0' ∷ []

-- `d.d[j]` where there is such a digit.
abbrev pub digit_at : Bytes → ℤ → ℕ
digit_at d (pos j) = if ltb j (length d) then get_or d j 0 else b'0'
digit_at d (negsuc j) = b'0'

-- The digits of the fraction, from `i` on.
pub f_digits : Bytes → ℤ → ℕ → ℕ → Bytes
f_digits d dp i zero = []
f_digits d dp i (suc left) = digit_at d (moved dp i 0) ∷ f_digits d dp (i + 1) left

pub f_fraction : Bytes → ℤ → ℤ → Bytes
unfolding f_digits
f_fraction d dp (negsuc n) = []
f_fraction d dp (pos zero) = []
f_fraction d dp (pos (suc n)) = b'.' ∷ f_digits d dp 0 (suc n)

-- `fmtF`
pub fmt_f : Bool → Bytes → ℤ → ℤ → Bytes
unfolding f_integer f_fraction
fmt_f neg d dp prec = minus_sign neg ++ (f_integer d dp ++ f_fraction d dp prec)

-- The case of `%g` and `%G`.
pub fmt_g : Bool → Bool → Bytes → ℤ → ℤ → ℕ → Bytes
unfolding fmt_e fmt_f
fmt_g shortest neg d dp prec fmt =
    let nd = pos (length d) in
    let eprec =
      if shortest then pos 6 else (if less nd prec && not (less nd dp) then nd else prec) in
    let exp = moved dp 0 1 in
    if less exp (negsuc 3) || not (less exp eprec)
    then fmt_e neg d dp (moved (if less nd prec then nd else prec) 0 1) ((fmt + b'e' - b'g') % 256)
    else fmt_f neg d dp (pos (pos_part (sub_ints (if less dp prec then nd else prec) dp)))

-- `formatDigits`
unfoldable pub format_digits : Bool → Bool → Bytes → ℤ → ℤ → ℕ → Bytes
unfolding fmt_e fmt_f fmt_g
format_digits shortest neg d dp prec fmt =
    if fmt == b'e' || fmt == b'E'
    then fmt_e neg d dp prec fmt
    else if fmt == b'f'
    then fmt_f neg d dp prec
    else if fmt == b'g' || fmt == b'G'
    then fmt_g shortest neg d dp prec fmt
    else b'%' ∷ fmt ∷ []
