-- ===== src/Number/ByteNum.antt =====
-- fflib/v1/bytenum.go: `ParseUint` and `ParseInt` with their fast path for one digit, which looks
-- neither at the base nor at the bit size.
use native.Mathlib.Nat.{pow-le-pow_right}
use ffjson.Number.Atoi
use ffjson.Number.Atoi.{NumResult, int_size}
use ffjson.Number.Atoi.Int.{parse_int_complete}
use ffjson.Number.Atoi.Spec.{AllDigits}
use ffjson.Number.Atoi.Uint.{parse_uint_complete}
use mathlib.Core.List.{cons-ne-nil}
use ffjson.Prelude.{
  ℕ, ◌-◌, ◌^◌, ◌≤◌, ◌≡◌, refl, sym, ◌∙◌, true, none, [], ◌∷◌, inl, inr, arith, between,
  if◌then◌else◌, Bytes, Bool-cases,
}

unfoldable pub parse_uint : Bytes → ℕ → ℕ → NumResult
parse_uint (c ∷ []) base bit_size =
    if between b'0' b'9' c then (c - b'0', none) else Atoi.parse_uint (c ∷ []) base bit_size
parse_uint s base bit_size = Atoi.parse_uint s base bit_size

unfoldable pub parse_int : Bytes → ℕ → ℕ → NumResult
parse_int (c ∷ []) base bit_size =
    if between b'0' b'9' c then (c - b'0', none) else Atoi.parse_int (c ∷ []) base bit_size
parse_int s base bit_size = Atoi.parse_int s base bit_size

module _ (c base b : ℕ) (ten : 10 ≤ base) (high : base ≤ 36) (big : b ≤ 64) where
  one_digit : between b'0' b'9' c ≡ true → AllDigits base (c ∷ [])
  one_digit h = (ground arith, tt)

  fast_uint :
      4 ≤ b → between b'0' b'9' c ≡ true → Atoi.parse_uint (c ∷ []) base b ≡ (c - b'0', none)
  fast_uint four h =
      let room : 2 ^ 4 ≤ 2 ^ b = pow-le-pow_right {n = 2} (omega arith) {i = 4} four in
      parse_uint_complete (c ∷ []) base b (cons-ne-nil _ _) (omega arith) high (omega arith) big
        (one_digit h)
      ∙ ground arith

  fast_int : 5 ≤ b → between b'0' b'9' c ≡ true → Atoi.parse_int (c ∷ []) base b ≡ (c - b'0', none)
  fast_int five h =
      let room : 2 ^ 4 ≤ 2 ^ (b - 1) =
        pow-le-pow_right {n = 2} (omega arith) {i = 4} (omega arith) in
      (parse_int_complete (c ∷ []) base b (omega arith) high (omega arith) big (cons-ne-nil _ _)
        (one_digit h)).0
      ∙ ground arith

-- In a base from 10 to 36 and at a bit size from 5 to 64 the fast paths change no result: both
-- functions agree with those of internal/atoi.go on every text.
pub fast_path_agrees :
    (s : Bytes) (base b : ℕ)
    → 10 ≤ base
    → base ≤ 36
    → 5 ≤ b
    → b ≤ 64
    → (parse_uint s base b ≡ Atoi.parse_uint s base b)
      × (parse_int s base b ≡ Atoi.parse_int s base b)
unfolding parse_uint parse_int
fast_path_agrees [] base b ten high five big = (refl, refl)
fast_path_agrees (c ∷ d ∷ s) base b ten high five big = (refl, refl)
fast_path_agrees (c ∷ []) base b ten high five big = elim (Bool-cases (between b'0' b'9' c)) [
  | inl digit ↦ (
    rw digit (sym (fast_uint c base b ten high big (omega arith) digit)),
    rw digit (sym (fast_int c base b ten high big five digit)),
  )
  | inr other ↦ (rw other, rw other)
]
