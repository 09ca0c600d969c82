-- ===== src/Lexer/Scan/Returns.antt =====
-- fflib/v1/lexer.go: `Scan` on any input neither panics nor runs on.
use ffjson.Lexer.{FfLexer, Tok, Flow, val, ret, crash, write, pure}
use ffjson.Lexer.Moves.{Whole}
use ffjson.Lexer.Scan.{
  echo, is_space, token_at, on_scan_read, scan_read_byte, lexed, scan_read, scan_loop, scan,
}
use ffjson.Lexer.Scan.Total.{token_at-Steps}
use ffjson.Lexer.Total.{IsEnd, Ends, Stays-from, Stays-then, Stays-whole, Steps}
use ffjson.Outcome.{Outcome, ok, err}
use ffjson.Reader
use ffjson.Reader.{Reader}
use ffjson.Reader.Reads.{Reads, read_byte-Reads, read_byte_no_ws-Reads}
use ffjson.Reader.Strings.Bounds.{Stays}
use ffjson.Prelude.{
  ℕ, zero, suc, ◌+◌, ◌≤◌, ◌<◌, ◌≡◌, ◌⊎◌, refl, Bool, true, false, inl, inr, arith, Bool-cases,
  length, if◌then◌else◌, [], ◌∷◌,
}

-- A token came back: the lexer is on the same input and inside it, and it has moved forward, or the
-- token is an end, and it has not moved backwards.
abbrev pub Scanned : Reader → Outcome Tok × FfLexer → Type 0
Scanned r (ok t, l) = Stays (suc r.i) r l.reader ⊎ (IsEnd t × Stays r.i r l.reader)
Scanned r (err e, l) = ⊥

module _ (r : Reader) (whole : r.l ≡ length r.s) where
  on_scan_read-Ends :
      (n : ℕ) (l : FfLexer) (x : Outcome ℕ × Reader)
      → r.i ≤ n
      → Stays n r l.reader
      → Reads l.reader x
      → Ends (suc n) r (on_scan_read l x)
  unfolding on_scan_read
  on_scan_read-Ends n l x le h (inl (c, r', e, s)) =
      rw e (Stays-from (suc (l.reader.i)) (suc n) r r' (Stays-then h s) (omega (arith, h.low)))
  on_scan_read-Ends n l x le h (inr e) = rw e (inr refl, Stays-from n r.i r l.reader h le)

  scan_read_byte-Steps : (n : ℕ) → r.i ≤ n → Steps r n (suc n) scan_read_byte
  unfolding scan_read_byte
  scan_read_byte-Steps n le l h = on_scan_read-Ends n l _ le h (either (l.capture_all))
    where
      either :
          (b : Bool)
          → Reads l.reader
              (if b then Reader.read_byte l.reader else Reader.read_byte_no_ws l.reader)
      either true = read_byte-Reads l.reader (Stays-whole whole h)
      either false = read_byte_no_ws-Reads l.reader (Stays-whole whole h)

  lexed-Scanned : (w : Flow Tok × FfLexer) → Ends (suc r.i) r w → Scanned r (lexed w)
  unfolding lexed
  lexed-Scanned (val t, l) h = inl h
  lexed-Scanned (ret t, l) h = inr h
  lexed-Scanned (crash, l) h = elim h [ ]

  -- Behind white space the next round starts further on.
  scan_read-Scanned :
      (n : ℕ) (again : FfLexer → Outcome Tok × FfLexer) (w : Flow ℕ × FfLexer)
      → r.i ≤ n
      → ((l : FfLexer) → Stays (suc n) r l.reader → Scanned r (again l))
      → Ends (suc n) r w
      → Scanned r (scan_read again w)
  unfolding scan_read echo
  scan_read-Scanned n again (ret t, l) le next h = inr h
  scan_read-Scanned n again (crash, l) le next h = elim h [ ]
  scan_read-Scanned n again (val c, l) le next h = elim (Bool-cases (is_space c)) [
    | inl space ↦ rw (scan_read, space) (next (echo c l).1 (echoed l.capture_all))
    | inr other ↦
        rw (scan_read, other)
          (lexed-Scanned (token_at c l) (
            token_at-Steps r whole r.i c (omega arith) l
              (Stays-from (suc n) (suc r.i) r l.reader h (omega arith))))
  ]
    where
      echoed : (b : Bool) → Stays (suc n) r (if b then write (c ∷ []) l else pure tt l).1.reader
      echoed true = h
      echoed false = h

  scan_loop-Scanned :
      (fuel n : ℕ) (l : FfLexer)
      → r.i ≤ n
      → r.l < n + fuel
      → Stays n r l.reader
      → Scanned r (scan_loop fuel l)
  unfolding scan_loop
  scan_loop-Scanned zero n l le enough h = absurd (omega (arith, h.low, h.high))
  scan_loop-Scanned (suc fuel) n l le enough h =
      scan_read-Scanned n (scan_loop fuel) (scan_read_byte l) le
        (λ l' h'. scan_loop-Scanned fuel (suc n) l' (omega arith) (omega arith) h')
        (scan_read_byte-Steps n le l h)

-- `Scan` on any input, with `captureAll` or without, from a position inside the slice, the reader's
-- limit being the length of its slice: it returns a token, never by a panic; the input is as it was,
-- and the lexer stands further on inside it, or the token is `FFTok_error` or `FFTok_eof` and the lexer
-- has not moved backwards.
pub scan-Scanned : (l : FfLexer) → Whole l → l.reader.i ≤ l.reader.l → Scanned l.reader (scan l)
unfolding scan
scan-Scanned l whole inside =
    scan_loop-Scanned l.reader whole (suc (length l.reader.s)) l.reader.i _ (omega arith)
      (omega (arith, whole))
      (record { same_s = refl; same_l = refl; low = omega arith; high = inside })
