-- ===== src/Reader/Strings/Bounds.antt =====
-- fflib/v1/reader.go: the positions that the steps of `SliceString` reach, on any input.
use ffjson.Buffer.{write_rune}
use ffjson.Go.Utf16
use ffjson.Go.Utf8.{rune_error}
use ffjson.Number.Atoi.{NumResult}
use ffjson.Number.ByteNum
use ffjson.Outcome.{Fault, Outcome, ok, err, index, ◌>>=◌}
use ffjson.Reader.{Reader, read_u4, collect_u4, number}
use ffjson.Reader.Strings.{
  Written, scan_from, scan_string, pending, flush, surrogate_pair, unicode_escape, escaped_char,
  unescape, handle_escaped,
}
use ffjson.Tables.{has_flag, c_vec, c_vhc, slice_string_mask}
use ffjson.Prelude.{
  ℕ, zero, suc, ◌+◌, ◌-◌, ◌≤◌, ◌<◌, ◌≡◌, refl, inl, inr, [], ◌∷◌, ◌++◌, arith, Bytes, Bool-cases,
  none, some, length, length-drop, drop, drop_at, drop-get_elem?, leb, leb-false, le→leb, ◌==◌,
  slice,
}

-- An error that Go code returns, as against a panic or a loop without an end.
abbrev pub IsError : Fault → Type 0
IsError Fault.panic = ⊥
IsError Fault.no_fuel = ⊥
IsError _ = Unit

-- `r'` is `r` at another position, not below `lo` and inside the slice.
pub record Stays (lo : ℕ) (r r' : Reader) : Type 0 where
  pub same_s : r'.s ≡ r.s
  pub same_l : r'.l ≡ r.l
  pub low : lo ≤ r'.i
  pub high : r'.i ≤ r.l

-- The digits lie inside the slice, or there is an error.
abbrev Digits4 : {A : Type 0} → ℕ → ℕ → Outcome A → Type 0
Digits4 last limit (ok u) = last ≤ limit
Digits4 last limit (err e) = IsError e

Digits4-bind :
    {A B : Type 0} (m limit : ℕ) (o : Outcome A) (f : A → Outcome B)
    → Digits4 m limit o
    → ((a : A) → m ≤ limit → Digits4 m limit (f a))
    → Digits4 m limit (o >>= f)
Digits4-bind m limit (ok a) f h next = next a h
Digits4-bind m limit (err e) f h next = h

-- What a step of an escape leaves: a position from `hi` on and behind the reader's, or an error; the
-- reader moved forward from `lo`.
abbrev pub Goes : ℕ → ℕ → Reader → Written ℕ → Type 0
Goes lo hi r (ok j, r', out) = Stays lo r r' × (hi ≤ j) × (r'.i ≤ j) × (j ≤ r.l)
Goes lo hi r (err e, r', out) = IsError e × Stays lo r r'

module _ (r : Reader) (whole : r.l ≡ length r.s) where
  pub index_inside : (j : ℕ) → j < r.l → (c : ℕ) × (index r.s j ≡ ok c)
  index_inside j h =
      let (c, t, at) = drop_at r.s j (omega arith) in (c, rw (drop-get_elem? r.s j at) refl)

  collect_u4-Digits4 : (n j : ℕ) (u4 : Bytes) → j ≤ r.l → Digits4 (j + n) r.l (collect_u4 n r j u4)
  unfolding collect_u4
  collect_u4-Digits4 zero j u4 h = omega arith
  collect_u4-Digits4 (suc n) j u4 h = elim (Bool-cases (leb r.l j)) [
    | inl past ↦ rw (collect_u4, past) tt
    | inr before ↦
        let (c, at) = index_inside j (leb-false r.l j before) in
        elim (Bool-cases (has_flag c c_vhc)) [
          | inl hex ↦
              let e : j + suc n ≡ j + 1 + n = omega arith in
              rw (collect_u4, before, at, hex, e)
                (collect_u4-Digits4 n (j + 1) (u4 ++ c ∷ [])
                  (omega (arith, leb-false r.l j before)))
          | inr other ↦ rw (collect_u4, before, at, other) tt
        ]
  ]

  number-Digits4 : (m : ℕ) (n : NumResult) → m ≤ r.l → Digits4 m r.l (number n)
  unfolding number
  number-Digits4 m (n, none) h = h
  number-Digits4 m (n, some e) h = tt

  four_digits : (j : ℕ) → Digits4 (j + 4) r.l (collect_u4 4 r j [])
  unfolding collect_u4
  four_digits j = elim (Bool-cases (leb r.l j)) [
    | inl past ↦ rw (collect_u4, past) tt
    | inr before ↦ collect_u4-Digits4 4 j [] (omega (arith, leb-false r.l j before))
  ]

  pub read_u4-Digits4 : (j : ℕ) → Digits4 (j + 4) r.l (read_u4 r j)
  unfolding read_u4
  read_u4-Digits4 j = Digits4-bind (j + 4) r.l (collect_u4 4 r j []) _ (four_digits j) (λ u4 le.
      Digits4-bind (j + 4) r.l (number (ByteNum.parse_uint u4 16 64)) _
        (number-Digits4 (j + 4) (ByteNum.parse_uint u4 16 64) le) (λ rr le. le))

  pub pending_inside :
      (j back : ℕ)
      → r.i + back ≤ j
      → j ≤ length r.s + back
      → pending r j back ≡ ok (slice r.s r.i (j - back))
  unfolding pending
  pending_inside j back low high =
      rw (le→leb (r.i + back) j low, le→leb j (length r.s + back) high) refl

  pub stay : (lo : ℕ) → lo ≤ r.i → r.i ≤ r.l → Stays lo r r
  stay lo low high = record { same_s = refl; same_l = refl; low = low; high = high }

  pub moved : (lo k : ℕ) → lo ≤ k → k ≤ r.l → Stays lo r (record r { i = k })
  moved lo k low high = record { same_s = refl; same_l = refl; low = low; high = high }

  flush-Goes :
      (j k : ℕ) (out bytes : Bytes)
      → r.i + 2 ≤ j
      → j ≤ k
      → k ≤ r.l
      → Goes r.i j r (flush r j k out bytes)
  unfolding flush
  flush-Goes j k out bytes low le high =
      rw (flush, pending_inside j 2 low (omega arith))
        (moved r.i k (omega arith) high, le, omega arith, high)

  surrogate_pair-Goes :
      (j : ℕ) (out : Bytes) (ru : ℕ) (o : Outcome ℕ)
      → r.i + 2 ≤ j
      → Digits4 (j + 10) r.l o
      → r.i ≤ r.l
      → Goes r.i j r (surrogate_pair r j out ru o)
  unfolding surrogate_pair
  surrogate_pair-Goes j out ru (err e) low d high = (d, stay r.i (omega arith) high)
  surrogate_pair-Goes j out ru (ok ru2) low d high =
      let m = moved r.i (j + 10) (omega arith) d in
      elim (Bool-cases (Utf16.decode_rune ru ru2 == rune_error)) [
        | inl bad ↦ rw (surrogate_pair, pending_inside j 2 low (omega arith), bad) (tt, m)
        | inr pair ↦
            rw (surrogate_pair, pending_inside j 2 low (omega arith), pair)
              (m, omega arith, omega arith, d)
      ]

  unicode_escape-Goes :
      (j : ℕ) (out : Bytes) (o : Outcome ℕ)
      → r.i + 2 ≤ j
      → Digits4 (j + 4) r.l o
      → r.i ≤ r.l
      → Goes r.i j r (unicode_escape r j out o)
  unfolding unicode_escape
  unicode_escape-Goes j out (err e) low d high = (d, stay r.i (omega arith) high)
  unicode_escape-Goes j out (ok ru) low d high = elim (Bool-cases (Utf16.is_surrogate ru)) [
    | inl half ↦
        rw (unicode_escape, half)
          (surrogate_pair-Goes j out ru (read_u4 r (j + 6)) low
            (let e : j + 6 + 4 ≡ j + 10 = omega arith in rw e at (read_u4-Digits4 (j + 6))) high)
    | inr whole_rune ↦
        rw (unicode_escape, whole_rune)
          (flush-Goes j (j + 4) out (write_rune ru) low (omega arith) d)
  ]

  escaped_char-Goes :
      (j : ℕ) (out : Bytes) (c : ℕ)
      → r.i + 2 ≤ j
      → j ≤ r.l
      → r.i ≤ r.l
      → Goes r.i j r (escaped_char r j out c)
  unfolding escaped_char
  escaped_char-Goes j out c low at high = elim (Bool-cases (c == b'u')) [
    | inl u ↦
        rw (escaped_char, u) (unicode_escape-Goes j out (read_u4 r j) low (read_u4-Digits4 j) high)
    | inr not_u ↦ elim (Bool-cases (has_flag c c_vec)) [
      | inl valid ↦
          rw (escaped_char, not_u, valid) (flush-Goes j j out (unescape c) low (omega arith) at)
      | inr wrong ↦ rw (escaped_char, not_u, wrong) (tt, stay r.i (omega arith) high)
    ]
  ]

  pub handle_escaped-Goes :
      (j : ℕ) (out : Bytes) → r.i + 1 ≤ j → r.i ≤ r.l → Goes r.i (j + 1) r (handle_escaped r j out)
  unfolding handle_escaped
  handle_escaped-Goes j out low high = elim (Bool-cases (leb r.l j)) [
    | inl past ↦ rw (handle_escaped, past) (tt, stay r.i (omega arith) high)
    | inr before ↦
        let (c, at) = index_inside j (leb-false r.l j before) in
        rw (handle_escaped, before, at)
          (escaped_char-Goes (j + 1) out c (omega arith) (omega (arith, leb-false r.l j before))
            high)
  ]

  -- `scanString` moves on, and stays inside.
  scan_from-bounds :
      (t : Bytes) (j : ℕ) → (j ≤ (scan_from t j).0) × ((scan_from t j).0 ≤ j + length t)
  unfolding scan_from
  scan_from-bounds [] j = (omega arith, omega arith)
  scan_from-bounds (c ∷ t) j = elim (Bool-cases (has_flag c slice_string_mask)) [
    | inl stop ↦ rw (scan_from, stop) (omega arith, omega arith)
    | inr on ↦
        let (low, high) = scan_from-bounds t (j + 1) in
        rw (scan_from, on) (omega (arith, low), omega (arith, high))
  ]

  scan_from-moves : (c : ℕ) (t : Bytes) (j : ℕ) → j < (scan_from (c ∷ t) j).0
  unfolding scan_from
  scan_from-moves c t j = elim (Bool-cases (has_flag c slice_string_mask)) [
    | inl stop ↦ rw (scan_from, stop) (omega arith)
    | inr on ↦ rw (scan_from, on) (omega (arith, (scan_from-bounds t (j + 1)).0))
  ]

  pub scan_string-bounds :
      (j : ℕ) → j < r.l → (j < (scan_string r.s j).0) × ((scan_string r.s j).0 ≤ r.l)
  unfolding scan_string
  scan_string-bounds j h =
      let (c, t, at) = drop_at r.s j (omega arith) in
      (
        rw at (scan_from-moves c t j),
        omega (arith, (scan_from-bounds (drop j r.s) j).1, length-drop j r.s),
      )
