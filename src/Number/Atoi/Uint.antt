-- ===== src/Number/Atoi/Uint.antt =====
-- `ParseUint` of internal/atoi.go against the digit strings of Spec.
use Prim.Native.String.{String}
use mathlib.Core.List.{cons-ne-nil}
use native.Mathlib.Nat.{one-le-pow}
use ffjson.Number.Atoi.{
  NumFault, NumError, NumResult, err_range, max_u64, cutoff64, max_val, size_of, digit_val, Round,
  next, stop, add_digit, accumulate, scan_digits, read_digits, select_base, wrap, parse_uint,
}
use ffjson.Number.Atoi.Spec.{IsDigit, AllDigits, weight, value, le-value}
use ffjson.Prelude.{
  ℕ, ◌+◌, ◌-◌, ◌*◌, ◌^◌, ◌≤◌, ◌<◌, ◌≡◌, ◌≢◌, refl, true, Option, none, some, [], ◌∷◌, inl, inr,
  arith, ltb, leb, ◌==◌, ==_iff, between, if◌then◌else◌, Bytes, Bool-cases, le→ltb, lt→ltb, ltb→lt,
  ap, all_below, all_below_sound,
}

digit_val-IsDigit :
    (base d v : ℕ) → digit_val d ≡ some v → v < base → IsDigit base d × (v ≡ weight d)
unfolding digit_val
digit_val-IsDigit base d v h lt = ground arith

IsDigit-digit_val :
    (base d : ℕ) → IsDigit base d → (digit_val d ≡ some (weight d)) × (weight d < base)
unfolding digit_val
IsDigit-digit_val base d h = ground arith

-- Below the cutoff the product does not wrap around; from it on it would.
cutoff_exact : (base n : ℕ) → 2 ≤ base → leb (cutoff64 base) n ≡ ltb max_u64 (n * base)
unfolding cutoff64
cutoff_exact base n h = grind arith

module _ (base max : ℕ) (low : 2 ≤ base) (high : base ≤ 36) (fits : max ≤ max_u64) where
  add_digit_lem :
      (n v : ℕ)
      → v < base
      → add_digit base max n v
        ≡ (if ltb max (n * base + v) then stop max_u64 err_range else next (n * base + v))
  unfolding add_digit
  add_digit_lem n v lt = rw (cutoff_exact base n low) (ground arith)

  accumulate-IsDigit :
      (n d : ℕ)
      → IsDigit base d
      → accumulate base max n d ≡ (
          if ltb max (n * base + weight d)
          then stop max_u64 err_range
          else next (n * base + weight d))
  unfolding accumulate
  accumulate-IsDigit n d h =
      let (e, lt) = IsDigit-digit_val base d h in rw (e, accumulate) (add_digit_lem n (weight d) lt)

  add_digit_sound :
      (n v n' : ℕ)
      → add_digit base max n v ≡ next n'
      → (v < base) × (n' ≡ n * base + v) × (n' ≤ max)
  add_digit_sound n v n' h = elim (Bool-cases (leb base v)) [
    | inl large ↦ unfold add_digit in ground arith
    | inr small ↦ ground (arith, add_digit_lem n v)
  ]

  accumulate_by :
      (n d n' : ℕ) (o : Option ℕ)
      → digit_val d ≡ o
      → accumulate base max n d ≡ next n'
      → IsDigit base d × (n' ≡ n * base + weight d) × (n' ≤ max)
  unfolding accumulate
  accumulate_by n d n' none e h = cc (rw (e, accumulate) at h)
  accumulate_by n d n' (some v) e h =
      let (lt, value_is, small) = add_digit_sound n v n' (rw (e, accumulate) at h) in
      let (digit, w) = digit_val-IsDigit base d v e lt in (digit, rw (← w) value_is, small)

  accumulate_sound :
      (n d n' : ℕ)
      → accumulate base max n d ≡ next n'
      → IsDigit base d × (n' ≡ n * base + weight d) × (n' ≤ max)
  accumulate_sound n d n' = accumulate_by n d n' (digit_val d) refl

  -- One digit: past `max` the loop stops, and the value of the whole text is past it too.
  scan_digits-cons :
      (s : Bytes) (d n m : ℕ)
      → m ≡ n * base + weight d
      → IsDigit base d
      → scan_digits base max (d ∷ s) n
        ≡ (if ltb max m then (max_u64, some err_range) else scan_digits base max s m)
  unfolding scan_digits
  scan_digits-cons s d n m e h = elim (Bool-cases (ltb max m)) [
    | inl over ↦ rw (over, scan_digits, accumulate-IsDigit n d h, ← e, over)
    | inr fine ↦ rw (fine, scan_digits, accumulate-IsDigit n d h, ← e, fine)
  ]

  scan_digits_lem :
      (s : Bytes) (n : ℕ)
      → n ≤ max
      → AllDigits base s
      → scan_digits base max s n
        ≡ (if ltb max (value base n s) then (max_u64, some err_range) else (value base n s, none))
  scan_digits_lem [] n h _ = unfold scan_digits in rw (le→ltb max n h)
  scan_digits_lem (d ∷ s) n h (hd, hs) =
      let m = n * base + weight d in
      elim (Bool-cases (ltb max m)) [
        | inl over ↦
            let large : max < value base m s =
              omega (arith, ltb→lt max m over, le-value base m s (omega arith)) in
            rw (scan_digits-cons s d n m refl hd, over, lt→ltb max _ large)
        | inr fine ↦
            rw (scan_digits-cons s d n m refl hd, fine) (scan_digits_lem s m (ground arith) hs)
      ]

  scan_digits-next :
      (s : Bytes) (d n r : ℕ) (a : Round)
      → accumulate base max n d ≡ a
      → scan_digits base max (d ∷ s) n ≡ (r, none)
      → (n' : ℕ) × (accumulate base max n d ≡ next n') × (scan_digits base max s n' ≡ (r, none))
  unfolding scan_digits
  scan_digits-next s d n r (next n') e h = (n', e, rw (e, scan_digits) at h)
  scan_digits-next s d n r (stop m x) e h =
      cc (ap (λ (p : ℕ × Option NumFault). p.1) (rw (e, scan_digits) at h))

  scan_digits_sound :
      (s : Bytes) (n r : ℕ)
      → n ≤ max
      → scan_digits base max s n ≡ (r, none)
      → AllDigits base s × (r ≡ value base n s) × (r ≤ max)
  scan_digits_sound [] n r h e = unfold scan_digits in ground arith
  scan_digits_sound (d ∷ s) n r h e =
      let (n', e', later) = scan_digits-next s d n r (accumulate base max n d) refl e in
      let (digit, value_is, small) = accumulate_sound n d n' e' in
      let (rest, r_is, fits_r) = scan_digits_sound s n' r small later in
      ((digit, rest), rw (← value_is) r_is, fits_r)

max_val-rows : all_below 65 (λ b. max_val b == 2 ^ b - 1) ≡ true
unfolding all_below max_val
max_val-rows = refl

pub max_val_lem : (bit_size : ℕ) → bit_size ≤ 64 → max_val bit_size ≡ 2 ^ bit_size - 1
max_val_lem b h =
    (==_iff (max_val b) _).0
      (all_below_sound 65 (λ x. max_val x == 2 ^ x - 1) b max_val-rows (omega arith))

max_val-fits : (bit_size : ℕ) → max_val bit_size ≤ max_u64
unfolding max_val
max_val-fits b = omega arith

-- A base from 2 to 36 is taken as it is: the loop runs over the whole text.
parse_uint-scan :
    (s : Bytes) (base bit_size : ℕ)
    → s ≢ []
    → 2 ≤ base
    → base ≤ 36
    → 1 ≤ bit_size
    → parse_uint s base bit_size ≡ wrap "ParseUint" s (scan_digits base (max_val bit_size) s 0)
unfolding parse_uint
parse_uint-scan [] base b ne low high h = absurd (ne refl)
parse_uint-scan (c ∷ s) base b ne low high h =
    let ok : between 2 36 base ≡ true = ground arith in
    let sized : size_of b ≡ b = ground arith in rw (select_base, ok, read_digits, sized)

wrap-none :
    {r : ℕ} (f : String) (s : Bytes) (p : ℕ × Option NumFault)
    → wrap f s p ≡ (r, none)
    → p ≡ (r, none)
unfolding wrap
wrap-none f s (n, none) h = ap (λ (q : NumResult). (q.0, none)) h
wrap-none f s (n, some e) h = cc (ap (λ (q : NumResult). q.1) h)

pow-pos : (b : ℕ) → 1 ≤ 2 ^ b
pow-pos b = one-le-pow b 2 (omega arith)

abbrev pub range_error : Bytes → NumError
range_error s = record { func = "ParseUint"; num = s; err = err_range }

-- `ParseUint` of a text of one or more digits below the base, the base from 2 to 36 and the bit size
-- from 1 to 64: the number that the digits spell, if it lies below 2 ^ bitSize, and otherwise
-- 2 ^ 64 - 1 with `ErrRange`.
pub parse_uint_complete :
    (s : Bytes) (base bit_size : ℕ)
    → s ≢ []
    → 2 ≤ base
    → base ≤ 36
    → 1 ≤ bit_size
    → bit_size ≤ 64
    → AllDigits base s
    → parse_uint s base bit_size ≡ (
        if ltb (value base 0 s) (2 ^ bit_size)
        then (value base 0 s, none)
        else (max_u64, some (range_error s)))
unfolding wrap
parse_uint_complete s base b ne low high one big digits_s =
    rw
      (
        parse_uint-scan s base b ne low high one,
        scan_digits_lem base (max_val b) low high (max_val-fits b) s 0 (omega arith) digits_s,
      )
      (elim (Bool-cases (ltb (value base 0 s) (2 ^ b))) [
        | inl small ↦
            rw (small, le→ltb (max_val b) (value base 0 s) (ground (arith, max_val_lem b big)))
        | inr large ↦ rw (
          large,
          lt→ltb (max_val b) (value base 0 s) (ground (arith, max_val_lem b big, pow-pos b)),
        )
      ])

parse_uint-nil : (base bit_size r : ℕ) → parse_uint [] base bit_size ≢ (r, none)
unfolding parse_uint
parse_uint-nil base b r h = cc (ap (λ (p : NumResult). p.1) h)

-- What `ParseUint` returns without an error, for a base from 2 to 36 and a bit size from 1 to 64: the
-- text is one or more digits below the base, the result is the number that they spell, and it lies
-- below 2 ^ bitSize.
pub parse_uint_sound :
    (s : Bytes) (base bit_size r : ℕ)
    → 2 ≤ base
    → base ≤ 36
    → 1 ≤ bit_size
    → bit_size ≤ 64
    → parse_uint s base bit_size ≡ (r, none)
    → (s ≢ []) × AllDigits base s × (r ≡ value base 0 s) × (r < 2 ^ bit_size)
parse_uint_sound [] base b r low high one big h = absurd (parse_uint-nil base b r h)
parse_uint_sound (c ∷ s) base b r low high one big h =
    let ne = cons-ne-nil c s in
    let scanned = rw (parse_uint-scan (c ∷ s) base b ne low high one) at h in
    let (all_digits, value_is, small) =
      scan_digits_sound base (max_val b) low high (max_val-fits b) (c ∷ s) 0 r (omega arith)
        (wrap-none _ _ _ scanned) in
    (ne, all_digits, value_is, ground (arith, max_val_lem b big, pow-pos b))
