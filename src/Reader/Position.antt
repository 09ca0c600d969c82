-- ===== src/Reader/Position.antt =====
-- fflib/v1/reader.go: `ReadByteNoWS`.
use ffjson.Outcome.{ok, err, Fault}
use ffjson.Reader.{Reader, read_byte_no_ws, skip_loop}
use ffjson.Tables.{blank, is_whitespace-blank}
use ffjson.Prelude.{
  ℕ, zero, suc, ◌+◌, ◌<◌, ◌≡◌, refl, ap, ◌∙◌, true, false, [], ◌∷◌, ◌++◌, Bytes, length, drop, take,
  lt→leb, le→leb, ◌≤◌, arith, length-append, length-drop, leb, Bool-cases, inl, inr,
}

-- The six blanks of the table.
pub data Blanks : Bytes → Type 0 where
  no_blank : Blanks []
  one_blank : {c : ℕ} {cs : Bytes} → blank c ≡ true → Blanks cs → Blanks (c ∷ cs)

pub take_whole : (n : ℕ) (xs : Bytes) → n ≡ length xs → take n xs ≡ xs
take_whole zero [] h = refl
take_whole (suc n) [] h = refl
take_whole zero (x ∷ xs) h = absurd (omega arith)
take_whole (suc n) (x ∷ xs) h = ap (◌∷◌ x) (take_whole n xs (omega arith))

skip_loop-Blanks :
    {cs : Bytes} (r : Reader) (c : ℕ) (t : Bytes) (j : ℕ)
    → Blanks cs
    → blank c ≡ false
    → skip_loop r (cs ++ c ∷ t) j ≡ (ok c, record r { i = j + length cs + 1 })
unfolding skip_loop
skip_loop-Blanks r c t j Blanks.no_blank other =
    let e : j + 0 ≡ j = omega arith in rw (is_whitespace-blank c, other, e) refl
skip_loop-Blanks {cs = b ∷ cs} r c t j (Blanks.one_blank is_blank blanks) other =
    let e : j + 1 + length cs ≡ j + suc (length cs) = omega arith in
    rw (is_whitespace-blank b, is_blank)
      (skip_loop-Blanks r c t (j + 1) blanks other ∙ ap (λ n. (ok c, record r { i = n + 1 })) e)

skip_loop-end :
    {cs : Bytes} (r : Reader) (j : ℕ)
    → r.l ≤ j + length cs
    → Blanks cs
    → skip_loop r cs j ≡ (err Fault.eof, r)
unfolding skip_loop
skip_loop-end r j past Blanks.no_blank = rw (le→leb r.l j (omega (arith, past))) refl
skip_loop-end {cs = b ∷ cs} r j past (Blanks.one_blank is_blank blanks) =
    rw (is_whitespace-blank b, is_blank) (skip_loop-end r (j + 1) (omega (arith, past)) blanks)

nonempty_at : (s a : Bytes) (i c : ℕ) (t : Bytes) → drop i s ≡ a ++ c ∷ t → i < length s
nonempty_at s a i c t at = omega (arith, ap length at, length-append a (c ∷ t), length-drop i s)

-- `ReadByteNoWS`, the limit being the length of the slice: it returns the first byte that is not one of
-- the six blanks and leaves the reader behind it.
pub read_byte_no_ws-Blanks :
    {cs : Bytes} (r : Reader) (c : ℕ) (t : Bytes)
    → r.l ≡ length r.s
    → Blanks cs
    → blank c ≡ false
    → drop r.i r.s ≡ cs ++ c ∷ t
    → read_byte_no_ws r ≡ (ok c, record r { i = r.i + length cs + 1 })
unfolding read_byte_no_ws
read_byte_no_ws-Blanks {cs} r c t whole blanks other at =
    let inside = nonempty_at r.s cs r.i c t at in
    rw (lt→leb r.l r.i (omega arith), take_whole r.l r.s whole, at)
      (skip_loop-Blanks r c t r.i blanks other)

-- With nothing but blanks left, `ReadByteNoWS` returns `io.EOF` and the reader has not moved.
pub read_byte_no_ws-end :
    {cs : Bytes} (r : Reader)
    → r.l ≡ length r.s
    → Blanks cs
    → drop r.i r.s ≡ cs
    → read_byte_no_ws r ≡ (err Fault.eof, r)
unfolding read_byte_no_ws
read_byte_no_ws-end {cs} r whole blanks at = elim (Bool-cases (leb r.l r.i)) [
  | inl past ↦ rw past refl
  | inr before ↦ rw (before, take_whole r.l r.s whole, at) (skip_loop-end r r.i reaches blanks)
]
  where
    reaches : r.l ≤ r.i + length cs
    reaches = omega (arith, whole, ap length at, length-drop r.i r.s)
