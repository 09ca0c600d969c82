-- ===== src/Fold.antt =====
-- fflib/v1/fold.go: the comparisons of a key with the name of a field, whatever the case of the
-- letters. The result of a comparison that indexes the other text says also that no index is out of
-- range.
pub mod Letters
pub mod Agrees
use ffjson.Go.Utf8
use ffjson.Go.Utf8.{rune_self}
use ffjson.Outcome.{Outcome, ok, err, Fault}
use ffjson.Prelude.{
  ℕ, Bool, true, false, ◌||◌, Option, none, some, [], ◌∷◌, bit_and, ltb, ◌==◌, between,
  if◌then◌else◌, Bytes, length, drop,
}

-- `kelvin` and `smallLongEss`
abbrev pub kelvin : ℕ
kelvin = 0x212A

abbrev pub small_long_ess : ℕ
small_long_ess = 0x017F

-- `b & caseMask`
unfoldable pub masked : ℕ → ℕ
masked b = bit_and b 0xDF

-- An ASCII byte of `t` against the byte of `s`.
pub right_same : ℕ → ℕ → Bool
unfolding masked
right_same sb tb =
    if sb == tb
    then true
    else if between b'A' b'Z' (masked sb)
    then masked sb == masked tb
    else false

-- `tr` is the rune of `t`, which is not ASCII.
pub special_same : ℕ → ℕ → Bool
special_same sb tr =
    if sb == b's' || sb == b'S'
    then tr == small_long_ess
    else if sb == b'k' || sb == b'K'
    then tr == kelvin
    else false

-- A round of the loop of `EqualFoldRight`: what is left of `t`, or nothing where it returns false.
pub right_round : ℕ → Bytes → Option Bytes
unfolding right_same special_same
right_round sb [] = none
right_round sb (tb ∷ t) =
    if ltb tb rune_self
    then (if right_same sb tb then some t else none)
    else (let (tr, size) = Utf8.decode_rune (tb ∷ t) in
        if special_same sb tr then some (drop size (tb ∷ t)) else none)

unfoldable pub equal_fold_right : Bytes → Bytes → Bool
unfolding right_round
equal_fold_right [] [] = true
equal_fold_right [] (tb ∷ t) = false
equal_fold_right (sb ∷ s) t = elim (right_round sb t) [
  | none ↦ false
  | some t' ↦ equal_fold_right s t'
]

abbrev pub is_letter : ℕ → Bool
is_letter c = between b'a' b'z' c || between b'A' b'Z' c

pub ascii_same : ℕ → ℕ → Bool
unfolding masked
ascii_same sb tb = if sb == tb then true else if is_letter sb then masked sb == masked tb else false

-- The loop over `s`, whose index reads `t`.
pub ascii_loop : Bytes → Bytes → Outcome Bool
unfolding ascii_same
ascii_loop [] t = ok true
ascii_loop (sb ∷ s) [] = err Fault.panic
ascii_loop (sb ∷ s) (tb ∷ t) = elim (ascii_same sb tb) [ true ↦ ascii_loop s t | false ↦ ok false ]

unfoldable pub ascii_equal_fold : Bytes → Bytes → Outcome Bool
unfolding ascii_loop
ascii_equal_fold s t = if length s == length t then ascii_loop s t else ok false

pub simple_loop : Bytes → Bytes → Outcome Bool
unfolding masked
simple_loop [] t = ok true
simple_loop (b ∷ s) [] = err Fault.panic
simple_loop (b ∷ s) (tb ∷ t) = elim (masked b == masked tb) [
  | true ↦ simple_loop s t
  | false ↦ ok false
]

unfoldable pub simple_letter_equal_fold : Bytes → Bytes → Outcome Bool
unfolding simple_loop
simple_letter_equal_fold s t = if length s == length t then simple_loop s t else ok false
