-- ===== src/Float/Append.antt =====
-- fflib/v1/ftoa.go: `AppendFloat` on the bits of a number. `math.Float64bits` and `math.Float32bits`
-- are the package math's, and the fast paths of extfloat.go, which is strconv's, are parameters: the
-- digits and the point, or nothing where they give up.
pub mod Infinite
use ffjson.Decimal.{
  Decimal, ℤ, pos, negsuc, pos_part, neg_part, sub_ℕ, moved, assign, round, round_up, round_down,
}
use ffjson.Decimal.Shift.{shift}
use ffjson.Float.{sub_ints, less, minus_sign, format_digits}
use ffjson.Number.Atoi.{neg64}
use ffjson.Outcome.{Outcome, ok, err, Fault, ◌>>=◌}
use ffjson.Prelude.{
  ℕ, zero, suc, ◌+◌, ◌-◌, ◌*◌, ◌/◌, ◌%◌, ◌^◌, Bool, true, false, not, ◌&&◌, ◌||◌, Option, none,
  some, List, [], ◌∷◌, ◌++◌, ltb, leb, ◌==◌, if◌then◌else◌, Bytes, codes, get_or, length,
}

pub record FloatInfo : Type 0 where
  pub mantbits : ℕ
  pub expbits : ℕ
  pub bias : ℤ

abbrev pub float32_info : FloatInfo
float32_info = record { mantbits = 23; expbits = 8; bias = negsuc 126 }

abbrev pub float64_info : FloatInfo
float64_info = record { mantbits = 52; expbits = 11; bias = negsuc 1022 }

-- a + b
abbrev pub plus : ℤ → ℤ → ℤ
plus a b = sub_ℕ (pos_part a + pos_part b) (neg_part a + neg_part b)

abbrev pub is_e : ℕ → Bool
is_e fmt = fmt == b'e' || fmt == b'E'

abbrev pub is_g : ℕ → Bool
is_g fmt = fmt == b'g' || fmt == b'G'

-- `new(decimal)`
abbrev pub new_decimal : Decimal
new_decimal = record { d = []; dp = pos 0; neg = false; trunc = false }

-- The digits at `i` of `d`, `lower` and `upper`, and what may be done there.
abbrev pub ok_down : Bool → ℕ → ℕ → ℕ → ℕ → Bool
ok_down inclusive i l m lower_nd = not (l == m) || inclusive && l == m && i + 1 == lower_nd

abbrev pub ok_up : Bool → ℕ → ℕ → ℕ → ℕ → Bool
ok_up inclusive i m u upper_nd =
    not (m == u) && (inclusive || ltb ((m + 1) % 256) u || ltb (i + 1) upper_nd)

abbrev pub rounded_digits : Decimal → ℕ → Bool → Bool → Option Decimal
rounded_digits d i down up =
    if down && up
    then some (round d (pos (i + 1)))
    else if down
    then some (round_down d (pos (i + 1)))
    else if up
    then some (round_up d (pos (i + 1)))
    else none

-- The loop of `roundShortest` from digit `i` on, where `digits` are left of `d`.
pub shortest_loop : Decimal → Bool → Bytes → Bytes → ℕ → Bytes → Decimal
shortest_loop d inclusive lower upper i [] = d
shortest_loop d inclusive lower upper i (m ∷ digits) =
    elim (rounded_digits d i (ok_down inclusive i (get_or lower i b'0') m (length lower))
      (ok_up inclusive i m (get_or upper i b'0') (length upper))) [
        | some rounded ↦ rounded
        | none ↦ shortest_loop d inclusive lower upper (i + 1) digits
      ]

-- `332*(d.dp-d.nd) >= 100*(exp-int(flt.mantbits))`, for the two differences.
abbrev pub is_shortest : ℤ → ℤ → Bool
is_shortest a b = leb (100 * pos_part b + 332 * neg_part a) (332 * pos_part a + 100 * neg_part b)

-- `roundShortest`
pub round_shortest : Decimal → ℕ → ℤ → FloatInfo → Outcome Decimal
unfolding shortest_loop
round_shortest d mant exp flt =
    let minexp = moved flt.bias 1 0 in
    let normal = ltb (2 ^ flt.mantbits) mant || not (less exp minexp || less minexp exp) in
    let mantlo =
      if normal then (mant + 2 ^ 64 - 1) % 2 ^ 64 else (mant * 2 + 2 ^ 64 - 1) % 2 ^ 64 in
    let explo = if normal then exp else moved exp 0 1 in
    if mant == 0
    then ok (record d { d = [] })
    else if less minexp exp && is_shortest (moved d.dp 0 (length d.d)) (moved exp 0 flt.mantbits)
    then ok d
    else (shift (moved exp 0 (flt.mantbits + 1)) (assign ((mant * 2 + 1) % 2 ^ 64) new_decimal)
        >>= λ upper.
            shift (moved explo 0 (flt.mantbits + 1))
              (assign ((mantlo * 2 + 1) % 2 ^ 64) new_decimal)
            >>= λ lower. ok (shortest_loop d (mant % 2 == 0) lower.d upper.d 0 d.d))

-- The precision for the shortest digits, in `bigFtoa` and, with no digit, in `AppendFloat`.
abbrev pub shortest_prec : ℕ → ℤ → ℕ → ℤ → ℤ
shortest_prec fmt prec nd dp =
    if is_e fmt
    then sub_ℕ nd 1
    else if fmt == b'f'
    then pos (pos_part (sub_ints (pos nd) dp))
    else if is_g fmt
    then pos nd
    else prec

abbrev pub one_if_zero : ℤ → ℤ
one_if_zero (pos zero) = pos 1
one_if_zero prec = prec

-- The precision of `%g` is 1 at least.
abbrev pub fixed_prec : ℕ → ℤ → ℤ
fixed_prec fmt prec = if is_g fmt then one_if_zero prec else prec

abbrev pub round_for : ℕ → ℤ → Decimal → Decimal
round_for fmt prec d =
    if is_e fmt
    then round d (moved prec 1 0)
    else if fmt == b'f'
    then round d (plus d.dp prec)
    else if is_g fmt
    then round d (one_if_zero prec)
    else d

-- `bigFtoa`
pub big_ftoa : ℤ → ℕ → Bool → ℕ → ℤ → FloatInfo → Outcome Bytes
unfolding round_shortest
big_ftoa prec fmt neg mant exp flt =
    shift (moved exp 0 flt.mantbits) (assign mant new_decimal) >>= λ d.
    if less prec (pos 0)
    then (round_shortest d mant exp flt >>= λ r.
        ok (format_digits true neg r.d r.dp (shortest_prec fmt prec (length r.d) r.dp) fmt))
    else (let r = round_for fmt prec d in
        ok (format_digits false neg r.d r.dp (fixed_prec fmt prec) fmt))

-- `formatBits` in base 10, on 64-bit words: a uint64 has 20 digits at most.
pub decimal_loop : ℕ → ℕ → Bytes → Bytes
decimal_loop zero us a = ((us + b'0') % 256) ∷ a
decimal_loop (suc fuel) us a = elim (leb 10 us) [
  | true ↦ decimal_loop fuel (us / 10) (((us - us / 10 * 10 + b'0') % 256) ∷ a)
  | false ↦ ((us + b'0') % 256) ∷ a
]

abbrev pub format_bits10 : ℕ → Bool → Bytes
unfolding decimal_loop
format_bits10 u neg = minus_sign neg ++ decimal_loop 19 (if neg then neg64 u else u) []

abbrev pub is_negative : ℤ → Bool
is_negative (pos n) = false
is_negative (negsuc n) = true

-- `uint64(exp)`
abbrev pub as_uint64 : ℤ → ℕ
as_uint64 (pos n) = n % 2 ^ 64
as_uint64 (negsuc n) = 2 ^ 64 - 1 - n % 2 ^ 64

-- `fmtB`
pub fmt_b : Bool → ℕ → ℤ → FloatInfo → Bytes
fmt_b neg mant exp flt =
    let e = moved exp 0 flt.mantbits in
    minus_sign neg
    ++ (format_bits10 mant false
        ++ (b'p'
            ∷ ((if is_negative e then [] else b'+' ∷ [])
                ++ format_bits10 (as_uint64 e) (is_negative e))))

-- The name of a number whose exponent is all ones.
abbrev pub special_name : ℕ → Bool → Bytes
special_name mant neg =
    if not (mant == 0) then codes "NaN" else if neg then codes "-Inf" else codes "+Inf"

-- `AssignComputeBounds` and `ShortestDecimal`; `FixedDecimal` to a count of digits.
pub record FastPaths : Type 0 where
  pub shortest_decimal : ℕ → ℤ → Bool → FloatInfo → Option (Bytes × ℤ)
  pub fixed_decimal : ℕ → ℤ → Bool → ℕ → Option (Bytes × ℤ)

abbrev pub formatted :
    Bool → Bool → ℤ → ℕ → (Bytes × ℤ → ℤ) → Outcome Bytes → Option (Bytes × ℤ) → Outcome Bytes
formatted shortest neg prec fmt new_prec slow none = slow
formatted shortest neg prec fmt new_prec slow (some (d, dp)) =
    ok (format_digits shortest neg d dp (new_prec (d, dp)) fmt)

-- The digits asked of `FixedDecimal`, for a precision that is not negative.
abbrev pub fixed_digits : ℕ → ℕ → ℕ
fixed_digits fmt prec =
    if is_e fmt then prec + 1 else if is_g fmt then (if prec == 0 then 1 else prec) else prec

-- Behind the decomposition of the bits: `exp` is without the bias.
pub append_finite : FastPaths → Bool → ℕ → ℤ → ℕ → ℤ → FloatInfo → Outcome Bytes
unfolding big_ftoa fmt_b
append_finite fast neg mant exp fmt (negsuc n) flt =
    if fmt == b'b'
    then ok (fmt_b neg mant exp flt)
    else formatted true neg (negsuc n) fmt
        (λ digs.
          if is_e fmt
          then pos (pos_part (sub_ℕ (length digs.0) 1))
          else shortest_prec fmt (negsuc n) (length digs.0) digs.1)
        (big_ftoa (negsuc n) fmt neg mant exp flt) (fast.shortest_decimal mant exp neg flt)
append_finite fast neg mant exp fmt (pos n) flt =
    if fmt == b'b'
    then ok (fmt_b neg mant exp flt)
    else if fmt == b'f' || ltb 15 (fixed_digits fmt n)
    then big_ftoa (pos n) fmt neg mant exp flt
    else formatted false neg (pos n) fmt (λ digs. fixed_prec fmt (pos n))
        (big_ftoa (fixed_prec fmt (pos n)) fmt neg mant exp flt)
        (fast.fixed_decimal mant (moved exp 0 flt.mantbits) neg (fixed_digits fmt n))

-- The decomposition of the bits: the implicit top bit is added to a number that is not denormalized.
unfoldable pub append_bits : FastPaths → FloatInfo → ℕ → ℕ → ℤ → Outcome Bytes
unfolding append_finite
append_bits fast flt bits fmt prec =
    let neg = not (bits / 2 ^ (flt.expbits + flt.mantbits) == 0) in
    let exp = bits / 2 ^ flt.mantbits % 2 ^ flt.expbits in
    let mant = bits % 2 ^ flt.mantbits in
    if exp == 2 ^ flt.expbits - 1
    then ok (special_name mant neg)
    else if exp == 0
    then append_finite fast neg mant (moved flt.bias 1 0) fmt prec flt
    else append_finite fast neg (mant + 2 ^ flt.mantbits) (moved flt.bias exp 0) fmt prec flt

-- `AppendFloat` on the bits of the number, with `optimize` set.
unfoldable pub append_float : FastPaths → ℕ → ℕ → ℤ → ℕ → Outcome Bytes
unfolding append_bits
append_float fast bits fmt prec bit_size =
    if bit_size == 32
    then append_bits fast float32_info bits fmt prec
    else if bit_size == 64
    then append_bits fast float64_info bits fmt prec
    else err Fault.panic
