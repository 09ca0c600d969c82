-- ===== src/Lexer/Moves.antt =====
-- fflib/v1/lexer.go: reading and unreading a byte at a known position, the limit of the reader being
-- the length of its slice.
use ffjson.Lexer.{FfLexer, val, read_byte, on_read, unread_byte, on_unread, write_from, on_slice}
use ffjson.Reader
use ffjson.Prelude.{
  ℕ, ◌+◌, ◌-◌, ◌≤◌, ◌≡◌, ◌≢◌, refl, ap, [], ◌∷◌, ◌++◌, Bytes, length, drop, drop-lt, drop-get_elem?,
  get_or, slice-append, le→leb, ne→==, length-append, length-drop, lt→leb, arith,
}

-- The lexer with its reader at position `n`.
abbrev pub moved : FfLexer → ℕ → FfLexer
moved l n = record l { reader = record l.reader { i = n } }

abbrev pub head : Bytes → ℕ
head xs = get_or xs 0 0

-- The reader's limit is the length of its slice.
abbrev pub Whole : FfLexer → Type 0
Whole l = l.reader.l ≡ length l.reader.s

pub read_byte-drop :
    (l : FfLexer) (n : ℕ) (xs : Bytes)
    → Whole l
    → drop n l.reader.s ≡ xs
    → xs ≢ []
    → read_byte (moved l n) ≡ (val (head xs), moved l (n + 1))
unfolding Reader.read_byte read_byte on_read
read_byte-drop l n [] whole at ne = absurd (ne refl)
read_byte-drop l n (x ∷ xs) whole at ne =
    let lt = drop-lt l.reader.s n at in
    rw (whole, lt→leb (length l.reader.s) n lt, drop-get_elem? l.reader.s n at) refl

pub unread_byte-moved : (l : FfLexer) (n : ℕ) → unread_byte (moved l (n + 1)) ≡ (val tt, moved l n)
unfolding Reader.unread_byte unread_byte on_unread
unread_byte-moved l n =
    let back : n + 1 - 1 ≡ n = omega arith in rw (ne→== (n + 1) 0 (omega arith), back) refl

pub append-ne_nil : (a b : Bytes) → b ≢ [] → a ++ b ≢ []
append-ne_nil [] b h = h
append-ne_nil (x ∷ a) b h = λ e. cc

-- What was read from position `start` on is written.
pub write_from-text :
    (l : FfLexer) (start : ℕ) (text rest : Bytes)
    → Whole l
    → start ≤ length l.reader.s
    → drop start l.reader.s ≡ text ++ rest
    → write_from start (moved l (start + length text))
      ≡ (val tt, record (moved l (start + length text)) { output = l.output ++ text })
unfolding Reader.slice_of write_from on_slice
write_from-text l start text rest whole inside at =
    let fits : start + length text ≤ length l.reader.s =
      omega (arith, ap length at, length-append text rest, length-drop start l.reader.s) in
    rw
      (
        le→leb start (start + length text) (omega arith),
        le→leb (start + length text) (length l.reader.s) fits,
        slice-append l.reader.s text rest start at,
      )
      refl
