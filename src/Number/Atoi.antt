-- ===== src/Number/Atoi.antt =====
-- fflib/v1/internal/atoi.go: `ParseUint`, `ParseInt` and their errors, on bytes.
-- `int` has 64 bits, so `intSize` is 64. A uint64 is a number below 2 ^ 64 with its wrap-around
-- written out; an int64 is its two's complement pattern.
pub mod Spec
pub mod Uint
pub mod Int
use Prim.Native.String.{String}
use ffjson.Prelude.{
  ℕ, ◌+◌, ◌-◌, ◌*◌, ◌/◌, ◌%◌, ◌^◌, Bool, true, false, not, ◌&&◌, ◌||◌, Option, none, some, [], ◌∷◌,
  ltb, leb, ◌==◌, between, if◌then◌else◌, Bytes,
}

-- `ErrRange`, `ErrSyntax`, and the error for a base out of range.
pub data NumFault : Type 0 where
  err_range err_syntax : NumFault
  invalid_base : ℕ → NumFault

pub record NumError : Type 0 where
  pub func : String
  pub num : Bytes
  pub err : NumFault

-- Go's `(n, err)`: the number stands beside the error, not instead of it.
abbrev pub NumResult : Type 0
NumResult = ℕ × Option NumError

abbrev pub int_size : ℕ
int_size = 64

abbrev pub u64 : ℕ
u64 = 2 ^ 64

abbrev pub max_u64 : ℕ
max_u64 = 2 ^ 64 - 1

unfoldable pub cutoff64 : ℕ → ℕ
cutoff64 base = if ltb base 2 then 0 else max_u64 / base + 1

-- `1<<uint(bitSize) - 1`, in uint64.
unfoldable pub max_val : ℕ → ℕ
max_val bit_size = (2 ^ bit_size % u64 + u64 - 1) % u64

-- `bitSize == 0` stands for the size of `int`.
abbrev pub size_of : ℕ → ℕ
size_of bit_size = if bit_size == 0 then int_size else bit_size

-- The digit that a byte stands for, in any base up to 36.
unfoldable pub digit_val : ℕ → Option ℕ
digit_val d =
    if between b'0' b'9' d
    then some (d - b'0')
    else if between b'a' b'z' d
    then some (d - b'a' + 10)
    else if between b'A' b'Z' d
    then some (d - b'A' + 10)
    else none

-- One round of the loop of `ParseUint`: the next value of `n`, or `n` and the error to return.
pub data Round : Type 0 where
  next : ℕ → Round
  stop : ℕ → NumFault → Round

add_digit : ℕ → ℕ → ℕ → ℕ → Round
unfolding cutoff64
add_digit base max n v =
    let n' = n * base % u64 in
    let n1 = (n' + v) % u64 in
    if leb base v
    then stop 0 err_syntax
    else if leb (cutoff64 base) n
    then stop max_u64 err_range
    else if ltb n1 n' || ltb max n1
    then stop max_u64 err_range
    else next n1

accumulate : ℕ → ℕ → ℕ → ℕ → Round
unfolding add_digit digit_val
accumulate base max n d = elim (digit_val d) [
  | none ↦ stop 0 err_syntax
  | some v ↦ add_digit base max n v
]

-- The loop; its error is wrapped at the label `Error`.
scan_digits : ℕ → ℕ → Bytes → ℕ → ℕ × Option NumFault
unfolding accumulate
scan_digits base max [] n = (n, none)
scan_digits base max (d ∷ s) n = elim (accumulate base max n d) [
  | next n' ↦ scan_digits base max s n'
  | stop n' e ↦ (n', some e)
]

-- The switch on the base: the digits to read and their base, or the error.
pub data Digits : Type 0 where
  digits : Bytes → ℕ → Digits
  refuse : NumFault → Digits

after_prefix : Bytes → Digits
after_prefix [] = refuse err_syntax
after_prefix s = digits s 16

implied_base : Bytes → Digits
implied_base (a ∷ b ∷ s) =
    if a == b'0' && (b == b'x' || b == b'X')
    then after_prefix s
    else if a == b'0'
    then digits (a ∷ b ∷ s) 8
    else digits (a ∷ b ∷ s) 10
implied_base (a ∷ []) = if a == b'0' then digits (a ∷ []) 8 else digits (a ∷ []) 10
implied_base [] = refuse err_syntax

select_base : Bytes → ℕ → Digits
unfolding implied_base after_prefix
select_base [] base = refuse err_syntax
select_base (c ∷ s) base =
    if between 2 36 base
    then digits (c ∷ s) base
    else if base == 0
    then implied_base (c ∷ s)
    else refuse (invalid_base base)

-- The label `Error`.
wrap : String → Bytes → ℕ × Option NumFault → NumResult
wrap func num (n, none) = (n, none)
wrap func num (n, some e) = (n, some (record { func = func; num = num; err = e }))

read_digits : ℕ → Digits → ℕ × Option NumFault
unfolding scan_digits
read_digits bit_size (digits s base) = scan_digits base (max_val (size_of bit_size)) s 0
read_digits bit_size (refuse e) = (0, some e)

unfoldable pub parse_uint : Bytes → ℕ → ℕ → NumResult
unfolding read_digits select_base wrap
parse_uint s base bit_size = wrap "ParseUint" s (read_digits bit_size (select_base s base))

-- The leading sign: whether it is `-`, and what is left.
strip_sign : Bytes → Bool × Bytes
strip_sign [] = (false, [])
strip_sign (c ∷ s) =
    if c == b'+' then (false, s) else if c == b'-' then (true, s) else (false, c ∷ s)

-- `-x` on int64 patterns.
abbrev pub neg64 : ℕ → ℕ
neg64 x = (u64 - x) % u64

-- What follows the call of `ParseUint`, when it gave `un` and no error or `ErrRange`.
signed_range : Bytes → ℕ → Bool → ℕ → NumResult
signed_range s0 bit_size neg un =
    let cutoff = 2 ^ (bit_size - 1) % u64 in
    let range_error : NumError = record { func = "ParseInt"; num = s0; err = err_range } in
    if not neg && leb cutoff un
    then ((cutoff + (u64 - 1)) % u64, some range_error)
    else if neg && ltb cutoff un
    then (neg64 cutoff, some range_error)
    else if neg
    then (neg64 un, none)
    else (un, none)

signed_result : Bytes → ℕ → Bool → NumResult → NumResult
unfolding signed_range
signed_result s0 bit_size neg (un, none) = signed_range s0 bit_size neg un
signed_result s0 bit_size neg (un, some e) = elim (e.err) [
  | err_range ↦ signed_range s0 bit_size neg un
  | other ↦ (0, some (record { func = "ParseInt"; num = s0; err = e.err }))
]

unfoldable pub parse_int : Bytes → ℕ → ℕ → NumResult
unfolding strip_sign signed_result parse_uint
parse_int [] base bit_size = (0, some (record { func = "ParseInt"; num = []; err = err_syntax }))
parse_int (c ∷ s) base bit_size =
    let (neg, rest) = strip_sign (c ∷ s) in
    signed_result (c ∷ s) (size_of bit_size) neg (parse_uint rest base (size_of bit_size))
