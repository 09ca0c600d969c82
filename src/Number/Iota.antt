-- ===== src/Number/Iota.antt =====
-- fflib/v1/iota.go: `FormatBits2`. The scratch array is filled from its end, so it is the list of the
-- bytes written so far, `a[i:]`.
pub mod Loops
pub mod RoundTrip
use ffjson.Prelude.{
  ℕ, zero, suc, ◌+◌, ◌-◌, ◌*◌, ◌/◌, ◌%◌, ◌^◌, Bool, true, false, ◌||◌, Option, none, some, List, [],
  ◌∷◌, ◌++◌, ltb, leb, ◌==◌, if◌then◌else◌, get_or, Bytes, codes,
}
use ffjson.Number.Atoi.{neg64}

abbrev pub digit_chars : Bytes
digit_chars = codes "0123456789abcdefghijklmnopqrstuvwxyz"

abbrev digits01 : Bytes
digits01 =
    codes
      "0123456789012345678901234567890123456789012345678901234567890123456789012345678901234567890123456789"

abbrev digits10 : Bytes
digits10 =
    codes
      "0000000000111111111122222222223333333333444444444455555555556666666666777777777788888888889999999999"

-- Powers of two from 2 to 32 have their exponent, other bases 0.
shifts : ℕ → ℕ
shifts base =
    if base == 2
    then 1
    else if base == 4
    then 2
    else if base == 8
    then 3
    else if base == 16
    then 4
    else if base == 32
    then 5
    else 0

abbrev small_numbers : List Bytes
small_numbers =
    codes "0"
    ∷ codes "1"
    ∷ codes "2"
    ∷ codes "3"
    ∷ codes "4"
    ∷ codes "5"
    ∷ codes "6"
    ∷ codes "7"
    ∷ codes "8"
    ∷ codes "9"
    ∷ codes "10"
    ∷ []

-- `digits[u]`
pub digit_char : ℕ → ℕ
digit_char u = get_or digit_chars u 0

char01 : ℕ → ℕ
char01 j = get_or digits01 j 0

char10 : ℕ → ℕ
char10 j = get_or digits10 j 0

-- `for u >= 100`, two digits a round. The fuel counts the rounds that may still be made.
hundreds_loop : ℕ → ℕ → Bytes → ℕ × Bytes
hundreds_loop zero u a = (u, a)
hundreds_loop (suc fuel) u a = elim (leb 100 u) [
  | false ↦ (u, a)
  | true ↦ let q = u / 100 in let j = u - q * 100 in hundreds_loop fuel q (char10 j ∷ char01 j ∷ a)
]

-- What stands behind that loop: one more digit if `u >= 10`.
tens : ℕ × Bytes → ℕ × Bytes
tens (u, a) = if leb 10 u then (let q = u / 10 in (q, digit_char (u - q * 10) ∷ a)) else (u, a)

-- `uintptr(u)&m` and `u >>= s`, where `m` is 2 ^ s - 1.
shift_loop : ℕ → ℕ → ℕ → ℕ → Bytes → ℕ × Bytes
shift_loop zero b s u a = (u, a)
shift_loop (suc fuel) b s u a = elim (leb b u) [
  | false ↦ (u, a)
  | true ↦ shift_loop fuel b s (u / 2 ^ s) (digit_char (u % 2 ^ s) ∷ a)
]

general_loop : ℕ → ℕ → ℕ → Bytes → ℕ × Bytes
general_loop zero b u a = (u, a)
general_loop (suc fuel) b u a = elim (leb b u) [
  | false ↦ (u, a)
  | true ↦ general_loop fuel b (u / b) (digit_char (u % b) ∷ a)
]

-- A uint64 is below 2 ^ 64, and each round at least halves it: 63 rounds leave it below 2.
abbrev rounds : ℕ
rounds = 63

pub convert : ℕ → ℕ → ℕ × Bytes
convert base u =
    if base == 10
    then tens (hundreds_loop rounds u [])
    else if ltb 0 (shifts base)
    then shift_loop rounds base (shifts base) u []
    else general_loop rounds base u []

-- The last digit, which is below the base.
pub last_digit : ℕ × Bytes → Bytes
last_digit (u, a) = digit_char u ∷ a

abbrev sign : Bool → Bytes → Bytes
sign neg a = if neg then b'-' ∷ a else a

-- `a[i:]` as it is handed to `dst.Write`, for `u` above 10.
pub scratch : ℕ → ℕ → Bool → Bytes
scratch u base neg = sign neg (last_digit (convert base (if neg then neg64 u else u)))

-- The writer's bytes are `dst`; `none` is the panic on an illegal base.
unfoldable pub format_bits2 : Bytes → ℕ → ℕ → Bool → Option Bytes
unfolding scratch convert last_digit hundreds_loop tens shift_loop general_loop shifts digit_char
    char01 char10
format_bits2 dst u base neg =
    if ltb base 2 || ltb 36 base
    then none
    else if leb u 10
    then some (dst ++ sign neg (get_or small_numbers u []))
    else some (dst ++ scratch u base neg)
