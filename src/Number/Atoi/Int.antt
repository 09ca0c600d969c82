-- ===== src/Number/Atoi/Int.antt =====
-- `ParseInt` of internal/atoi.go: the sign, and the range of a signed integer of each size.
use ffjson.Number.Atoi.{
  NumError, NumResult, err_range, max_u64, neg64, size_of, strip_sign, signed_range, signed_result,
  parse_uint, parse_int,
}
use ffjson.Number.Atoi.Spec.{AllDigits, value}
use ffjson.Number.Atoi.Uint.{parse_uint_complete}
use native.Mathlib.Nat.{one-le-pow, two-pow-succ, pow-le-pow_right}
use ffjson.Prelude.{
  ℕ, zero, suc, ◌+◌, ◌-◌, ◌%◌, ◌^◌, ◌≤◌, ◌<◌, ◌≡◌, ◌≢◌, refl, Bool, true, false, none, some, [],
  ◌∷◌, inl, inr, arith, ltb, leb, lt→leb, le→ltb, ◌∙◌, if◌then◌else◌, Bytes, Bool-cases,
}

abbrev int_range : Bytes → NumError
int_range s = record { func = "ParseInt"; num = s; err = err_range }

-- A magnitude with its sign as an int64 pattern, held to the range of `bitSize` bits.
abbrev pub signed_value : Bytes → ℕ → Bool → ℕ → NumResult
signed_value s b false v =
    if ltb v (2 ^ (b - 1)) then (v, none) else (2 ^ (b - 1) - 1, some (int_range s))
signed_value s b true v =
    if leb v (2 ^ (b - 1)) then (neg64 v, none) else (neg64 (2 ^ (b - 1)), some (int_range s))

double_pow : (b : ℕ) → 1 ≤ b → 2 ^ b ≡ 2 ^ (b - 1) + 2 ^ (b - 1)
double_pow zero h = absurd (omega arith)
double_pow (suc b) h = let e : suc b - 1 ≡ b = omega arith in rw e (two-pow-succ b)

module _ (base b : ℕ) (low : 2 ≤ base) (high : base ≤ 36) (one : 1 ≤ b) (big : b ≤ 64) where
  half_small : 2 ^ (b - 1) ≤ 2 ^ 63
  half_small = pow-le-pow_right {n = 2} (omega arith) {j = 63} (omega arith)

  signed_range_lem :
      (s : Bytes) (neg : Bool) (v : ℕ) → signed_range s b neg v ≡ signed_value s b neg v
  unfolding signed_range
  signed_range_lem s true v =
      let whole : 2 ^ (b - 1) % 2 ^ 64 ≡ 2 ^ (b - 1) = omega (arith, half_small) in
      rw whole (ground arith)
  signed_range_lem s false v =
      let whole : 2 ^ (b - 1) % 2 ^ 64 ≡ 2 ^ (b - 1) = omega (arith, half_small) in
      let less : (2 ^ (b - 1) + (2 ^ 64 - 1)) % 2 ^ 64 ≡ 2 ^ (b - 1) - 1 =
        omega (arith, half_small, one-le-pow (b - 1) 2 (omega arith)) in
      rw (whole, less) (ground arith)

  -- Past the range the result does not depend on the magnitude.
  signed_value_past :
      (s : Bytes) (neg : Bool) (v w : ℕ)
      → 2 ^ (b - 1) < v
      → 2 ^ (b - 1) < w
      → signed_value s b neg v ≡ signed_value s b neg w
  signed_value_past s true v w hv hw = rw (lt→leb v _ hv, lt→leb w _ hw)
  signed_value_past s false v w hv hw =
      rw (le→ltb v (2 ^ (b - 1)) (omega arith), le→ltb w (2 ^ (b - 1)) (omega arith))

  signed_result_lem :
      (s0 s : Bytes) (neg : Bool)
      → s ≢ []
      → AllDigits base s
      → signed_result s0 b neg (parse_uint s base b) ≡ signed_value s0 b neg (value base 0 s)
  signed_result_lem s0 s neg ne d =
      rw (parse_uint_complete s base b ne low high one big d)
        (elim (Bool-cases (ltb (value base 0 s) (2 ^ b))) [
          | inl small ↦ unfold signed_result in rw small (signed_range_lem s0 neg (value base 0 s))
          | inr large ↦
              unfold signed_result in
              rw large (
                signed_range_lem s0 neg max_u64
                ∙ signed_value_past s0 neg max_u64 (value base 0 s) (omega (arith, half_small))
                    (ground (arith, double_pow b one, half_pos)))
        ])
    where
      half_pos : 1 ≤ 2 ^ (b - 1)
      half_pos = one-le-pow (b - 1) 2 (omega arith)

sized : (b : ℕ) → 1 ≤ b → size_of b ≡ b
sized b h = ground arith

-- `ParseInt` of one or more digits below the base, with no sign, `+` or `-` in front, the base from 2
-- to 36 and the bit size from 1 to 64: the number with its sign, if it lies in the range of a signed
-- integer of that size, and otherwise the end of the range on that side with `ErrRange`.
pub parse_int_complete :
    (s : Bytes) (base b : ℕ)
    → 2 ≤ base
    → base ≤ 36
    → 1 ≤ b
    → b ≤ 64
    → s ≢ []
    → AllDigits base s
    → (parse_int s base b ≡ signed_value s b false (value base 0 s))
      × (parse_int (b'+' ∷ s) base b ≡ signed_value (b'+' ∷ s) b false (value base 0 s))
      × (parse_int (b'-' ∷ s) base b ≡ signed_value (b'-' ∷ s) b true (value base 0 s))
unfolding parse_int
parse_int_complete [] base b low high one big ne d = absurd (ne refl)
parse_int_complete (c ∷ s) base b low high one big ne d =
    let r = signed_result_lem base b low high one big in
    let unsigned : strip_sign (c ∷ s) ≡ (false, c ∷ s) = ground arith in
    (
      rw (sized b one, unsigned) (r (c ∷ s) (c ∷ s) false ne d),
      rw (sized b one) (r (b'+' ∷ c ∷ s) (c ∷ s) false ne d),
      rw (sized b one) (r (b'-' ∷ c ∷ s) (c ∷ s) true ne d),
    )
