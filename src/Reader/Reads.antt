-- ===== src/Reader/Reads.antt =====
-- fflib/v1/reader.go: `ReadByte` and `ReadByteNoWS` on any input.
use ffjson.Outcome.{Fault, Outcome, ok, err}
use ffjson.Reader.{Reader, read_byte, read_byte_no_ws, skip_loop}
use ffjson.Reader.Position.{take_whole}
use ffjson.Reader.Strings.Bounds.{Stays, index_inside, moved}
use ffjson.Tables.{is_whitespace}
use ffjson.Prelude.{
  ℕ, suc, ◌+◌, ◌≤◌, ◌≡◌, refl, ◌⊎◌, inl, inr, [], ◌∷◌, arith, Bytes, Bool-cases, length,
  length-drop, drop, leb, le→leb, leb-false,
}

-- A byte, with the reader moved forward and still inside; or the end, with the reader as it was.
abbrev pub Reads : Reader → Outcome ℕ × Reader → Type 0
Reads r x =
    ((c : ℕ) × (r' : Reader) × (x ≡ (ok c, r')) × Stays (suc r.i) r r') ⊎ (x ≡ (err Fault.eof, r))

module _ (r : Reader) (whole : r.l ≡ length r.s) where
  pub read_byte-Reads : Reads r (read_byte r)
  unfolding read_byte
  read_byte-Reads = elim (Bool-cases (leb r.l r.i)) [
    | inl past ↦ rw (read_byte, past) (inr refl)
    | inr before ↦
        let (c, at) = index_inside r whole r.i (leb-false r.l r.i before) in
        rw (read_byte, before, at)
          (inl (
            c,
            record r { i = r.i + 1 },
            refl,
            moved r whole (suc r.i) (r.i + 1) (omega arith)
                (omega (arith, leb-false r.l r.i before)),
          ))
  ]

  skip_loop-Reads : (t : Bytes) (j : ℕ) → r.i ≤ j → j + length t ≡ r.l → Reads r (skip_loop r t j)
  unfolding skip_loop
  skip_loop-Reads [] j low high = rw (le→leb r.l j (omega (arith, high))) (inr refl)
  skip_loop-Reads (c ∷ t) j low high = elim (Bool-cases (is_whitespace c)) [
    | inl space ↦ rw (skip_loop, space) (skip_loop-Reads t (j + 1) (omega arith) (omega arith))
    | inr other ↦
        rw (skip_loop, other)
          (inl (
            c,
            record r { i = j + 1 },
            refl,
            moved r whole (suc r.i) (j + 1) (omega arith) (omega arith),
          ))
  ]

  pub read_byte_no_ws-Reads : Reads r (read_byte_no_ws r)
  unfolding read_byte_no_ws
  read_byte_no_ws-Reads = elim (Bool-cases (leb r.l r.i)) [
    | inl past ↦ rw (read_byte_no_ws, past) (inr refl)
    | inr before ↦
        rw (read_byte_no_ws, before, take_whole r.l r.s whole)
          (skip_loop-Reads (drop r.i r.s) r.i (omega arith)
            (omega (arith, whole, length-drop r.i r.s, leb-false r.l r.i before)))
  ]
