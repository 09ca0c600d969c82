-- ===== src/Reader/Strings/Total.antt =====
-- fflib/v1/reader.go: `SliceString` on any input neither panics nor runs on.
use ffjson.Outcome.{ok, err}
use ffjson.Reader.{Reader}
use ffjson.Reader.Strings.Bounds.{
  IsError, Stays, Goes, pending_inside, stay, moved, handle_escaped-Goes, scan_string-bounds,
}
use ffjson.Reader.Strings.{
  Written, scan_string, handle_escaped, close_quote, Round, again, finish, after_escape, at_special,
  slice_round, slice_loop, slice_string,
}
use ffjson.Tables.{has_flag, c_ijc}
use ffjson.Prelude.{
  ap, sym, ◌⊎◌, ℕ, zero, suc, ◌+◌, ◌-◌, ◌≤◌, ◌<◌, ◌≡◌, refl, ◌∙◌, inl, inr, arith, Bytes,
  Bool-cases, length, leb, leb-false, ◌==◌,
}

-- The call returned, without an error or with one, and the reader moved forward from `lo`.
abbrev pub Returns : ℕ → Reader → Written (Unit {0}) → Type 0
Returns lo r (ok u, r', out) = Stays lo r r'
Returns lo r (err e, r', out) = IsError e × Stays lo r r'

-- The same of a round, which may also go on behind position `j`.
abbrev RoundReturns : ℕ → Reader → Round → Type 0
RoundReturns j r (again r' j' out) = Stays r.i r r' × (j < j') × (r'.i ≤ j') × (j' ≤ r.l)
RoundReturns j r (finish w) = Returns r.i r w

pub Stays-trans : {r r' r'' : Reader} → Stays r.i r r' → Stays r'.i r' r'' → Stays r.i r r''
Stays-trans a b = record {
  same_s = b.same_s ∙ a.same_s;
  same_l = b.same_l ∙ a.same_l;
  low = omega (arith, a.low, b.low);
  high = omega (arith, b.high, a.same_l);
}

Returns-trans :
    {r r' : Reader} (w : Written (Unit {0})) → Stays r.i r r' → Returns r'.i r' w → Returns r.i r w
Returns-trans (ok u, r'', out) a b = Stays-trans a b
Returns-trans (err e, r'', out) a b = (b.0, Stays-trans a b.1)

module _ (r : Reader) (whole : r.l ≡ length r.s) (inside : r.i ≤ r.l) where
  close_quote-Returns :
      (j : ℕ) (out : Bytes) → r.i < j → j ≤ r.l → Returns r.i r (close_quote r j out)
  unfolding close_quote
  close_quote-Returns j out low high = elim (Bool-cases (j == r.i)) [
    | inl same ↦ rw (close_quote, same) (stay r whole r.i (omega arith) inside)
    | inr other ↦
        rw (close_quote, other, pending_inside r whole j 1 (omega arith) (omega arith))
          (moved r whole r.i j (omega arith) high)
  ]

  after_escape-Returns :
      (j j' : ℕ) (w : Written ℕ) → j < j' → Goes r.i j' r w → RoundReturns j r (after_escape w)
  unfolding after_escape
  after_escape-Returns j j' (ok k, r', out) lt (stays, le, behind, high) =
      (stays, omega (arith, le), behind, high)
  after_escape-Returns j j' (err e, r', out) lt (e_ok, stays) = (e_ok, stays)

  at_special-Returns :
      (j j' c : ℕ) (out : Bytes)
      → r.i ≤ j
      → j < j'
      → j' ≤ r.l
      → RoundReturns j r (at_special r out (j', c))
  unfolding at_special
  at_special-Returns j j' c out low lt high = elim (Bool-cases (c == b'"')) [
    | inl quote ↦ rw (at_special, quote) (close_quote-Returns j' out (omega arith) high)
    | inr not_quote ↦ elim (Bool-cases (c == b'\\')) [
      | inl slash ↦
          rw (at_special, not_quote, slash)
            (after_escape-Returns j (j' + 1) (handle_escaped r j' out) (omega arith)
              (handle_escaped-Goes r whole j' out (omega arith) inside))
      | inr other ↦ elim (Bool-cases (has_flag c c_ijc)) [
        | inl bad ↦
            rw (at_special, not_quote, other, bad) (tt, stay r whole r.i (omega arith) inside)
        | inr fine ↦
            rw (at_special, not_quote, other, fine)
              (stay r whole r.i (omega arith) inside, lt, omega arith, high)
      ]
    ]
  ]

  slice_round-Returns :
      (j : ℕ) (out : Bytes) → r.i ≤ j → j ≤ r.l → RoundReturns j r (slice_round r j out)
  unfolding slice_round
  slice_round-Returns j out low high = elim (Bool-cases (leb r.l j)) [
    | inl past ↦ rw (slice_round, past) (tt, stay r whole r.i (omega arith) inside)
    | inr before ↦
        let (moves, stops) = scan_string-bounds r whole j (leb-false r.l j before) in
        rw (slice_round, before)
          (at_special-Returns j (scan_string r.s j).0 (scan_string r.s j).1 out low moves stops)
  ]

Round-cases :
    (w : Round)
    → ((r : Reader) × (j : ℕ) × (out : Bytes) × (w ≡ again r j out))
      ⊎ ((x : Written (Unit {0})) × (w ≡ finish x))
Round-cases (again r j out) = inl (r, j, out, refl)
Round-cases (finish x) = inr (x, refl)

slice_loop-Returns :
    (fuel : ℕ) (r : Reader) (j : ℕ) (out : Bytes)
    → r.l ≡ length r.s
    → r.i ≤ j
    → j ≤ r.l
    → r.l - j < fuel
    → Returns r.i r (slice_loop fuel r j out)
unfolding slice_loop
slice_loop-Returns zero r j out whole low high enough = absurd (omega arith)
slice_loop-Returns (suc fuel) r j out whole low high enough =
    elim (Round-cases (slice_round r j out)) [
      | inl (r', j', out', on) ↦
          let (stays, lt, behind, inside) =
            rw on at (slice_round-Returns r whole (omega arith) j out low high) in
          rw (slice_loop, on)
            (Returns-trans (slice_loop fuel r' j' out') stays (
              slice_loop-Returns fuel r' j' out'
                (stays.same_l ∙ whole ∙ ap length (sym stays.same_s)) behind
                (omega (arith, stays.same_l)) (omega (arith, stays.same_l, enough))))
      | inr (w, done) ↦
          rw (slice_loop, done)
            (rw done at (slice_round-Returns r whole (omega arith) j out low high))
    ]

-- `SliceString` on any input, from a position inside the slice, the limit `l` being its length: it
-- returns, with no error or with an error of its own, never by a panic; the input is as it was, and the
-- reader has not moved backwards or out of the slice.
pub slice_string-Returns :
    (r : Reader) (out : Bytes) → r.l ≡ length r.s → r.i ≤ r.l → Returns r.i r (slice_string r out)
unfolding slice_string
slice_string-Returns r out whole inside =
    slice_loop-Returns (suc (length r.s)) r r.i out whole (omega arith) inside (omega arith)
