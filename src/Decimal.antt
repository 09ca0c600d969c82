-- ===== src/Decimal.antt =====
-- fflib/v1/decimal.go: `decimal`, with its shifts in Decimal/Shift.antt. The digits are `a.d[0:nd]`;
-- those beyond are not read. A uint64 keeps its wrap-around.
pub mod Value
pub mod Assign
pub mod Carry
pub mod Round
pub mod Shift
pub mod Word
pub mod Right
pub mod Divide
pub mod Exact
pub mod Left
pub mod Cutoff
pub mod CarrySize
pub mod LeftExact
pub mod LeftShift
use ffjson.Prelude.{
  ℕ, zero, suc, ◌+◌, ◌-◌, ◌*◌, ◌/◌, ◌%◌, ◌^◌, Bool, true, false, not, ◌&&◌, Option, none, some, [],
  ◌∷◌, ◌++◌, ltb, leb, ◌==◌, if◌then◌else◌, Bytes, get_or, length, take,
}

-- Go's int, where it may be negative.
pub data ℤ : Type 0 where
  pos : ℕ → ℤ
  negsuc : ℕ → ℤ

abbrev pub increment : ℤ → ℤ
increment (pos n) = pos (n + 1)
increment (negsuc zero) = pos 0
increment (negsuc (suc n)) = negsuc n

abbrev pub pos_part : ℤ → ℕ
pos_part (pos n) = n
pos_part (negsuc n) = 0

abbrev pub neg_part : ℤ → ℕ
neg_part (pos n) = 0
neg_part (negsuc n) = suc n

-- a - b
abbrev pub sub_ℕ : ℕ → ℕ → ℤ
sub_ℕ a b = if leb b a then pos (a - b) else negsuc (b - a - 1)

-- A point `up` places further right and `down` places further left.
unfoldable pub moved : ℤ → ℕ → ℕ → ℤ
moved p up down = sub_ℕ (pos_part p + up) (neg_part p + down)

pub record Decimal : Type 0 where
  pub d : Bytes
  pub dp : ℤ
  pub neg : Bool
  pub trunc : Bool

-- What is left of a digit and the trimmed digits behind it.
abbrev pub trim_after : ℕ → Bytes → Bytes
trim_after c [] = if c == b'0' then [] else c ∷ []
trim_after c (x ∷ t) = c ∷ x ∷ t

-- The loop of `trim`, from the last digit on.
pub trim_digits : Bytes → Bytes
trim_digits [] = []
trim_digits (c ∷ t) = trim_after c (trim_digits t)

abbrev pub trim_point : Bytes → ℤ → ℤ
trim_point [] dp = pos 0
trim_point (c ∷ t) dp = dp

unfoldable pub trim : Decimal → Decimal
unfolding trim_digits
trim a = record a { d = trim_digits a.d; dp = trim_point (trim_digits a.d) a.dp }

-- The first loop of `Assign`: the digits, the last one first, into 24 bytes.
unfoldable pub reversed : ℕ → ℕ → Bytes
reversed zero v = []
reversed (suc room) v = elim (ltb 0 v) [
  | false ↦ []
  | true ↦ (v - 10 * (v / 10) + b'0') ∷ reversed room (v / 10)
]

-- The second loop, which reverses them again.
abbrev pub forward : Bytes → Bytes
forward [] = []
forward (c ∷ t) = forward t ++ c ∷ []

unfoldable pub assign : ℕ → Decimal → Decimal
unfolding trim reversed
assign v a =
    let digits = forward (reversed 24 v) in trim (record a { d = digits; dp = pos (length digits) })

-- `shouldRoundUp` at `nd`, which is not negative: the digit there against a half.
pub round_up_at : Decimal → ℕ → Bool
round_up_at a nd =
    if get_or a.d nd 0 == b'5' && nd + 1 == length a.d
    then (if a.trunc then true else ltb 0 nd && not ((get_or a.d (nd - 1) 0 - b'0') % 2 == 0))
    else leb b'5' (get_or a.d nd 0)

unfoldable pub should_round_up : Decimal → ℤ → Bool
unfolding round_up_at
should_round_up a (negsuc n) = false
should_round_up a (pos nd) = if leb (length a.d) nd then false else round_up_at a nd

-- The loop of `RoundUp` on `a.d[0:nd]`, from the last digit on; nothing if all are nines.
pub carry : Bytes → Option Bytes
carry [] = none
carry (c ∷ t) = elim (carry t) [
  | some t' ↦ some (c ∷ t')
  | none ↦ if ltb c b'9' then some ((c + 1) ∷ []) else none
]

pub carried : Decimal → Option Bytes → Decimal
carried a none = record a { d = b'1' ∷ []; dp = increment a.dp }
carried a (some digits) = record a { d = digits }

unfoldable pub round_up : Decimal → ℤ → Decimal
unfolding carry carried
round_up a (negsuc n) = a
round_up a (pos nd) = if leb (length a.d) nd then a else carried a (carry (take nd a.d))

unfoldable pub round_down : Decimal → ℤ → Decimal
unfolding trim
round_down a (negsuc n) = a
round_down a (pos nd) = if leb (length a.d) nd then a else trim (record a { d = take nd a.d })

-- `Round`
unfoldable pub round : Decimal → ℤ → Decimal
unfolding should_round_up round_up round_down
round a (negsuc n) = a
round a (pos nd) =
    if leb (length a.d) nd
    then a
    else if should_round_up a (pos nd)
    then round_up a (pos nd)
    else round_down a (pos nd)

-- The first loop of `RoundedInteger`, over the digits in front of the point.
pub integer_digits : ℕ → Bytes → ℕ
integer_digits n [] = n
integer_digits n (c ∷ t) = integer_digits ((n * 10 + (c - b'0')) % 2 ^ 64) t

-- The second loop, a zero for each place that the digits do not reach.
pub integer_zeros : ℕ → ℕ → ℕ
integer_zeros n zero = n
integer_zeros n (suc places) = integer_zeros (n * 10 % 2 ^ 64) places

-- `RoundedInteger` with the point at `p`, which is not negative.
pub rounded_at : Decimal → ℕ → ℕ
unfolding should_round_up integer_digits integer_zeros
rounded_at a p =
    let n = integer_zeros (integer_digits 0 (take p a.d)) (p - length a.d) in
    if should_round_up a (pos p) then (n + 1) % 2 ^ 64 else n

unfoldable pub rounded_integer : Decimal → ℕ
unfolding rounded_at
rounded_integer a = elim (a.dp) [
  | negsuc n ↦ 0
  | pos p ↦ if ltb 20 p then 2 ^ 64 - 1 else rounded_at a p
]
