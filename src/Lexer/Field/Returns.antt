-- ===== src/Lexer/Field/Returns.antt =====
-- fflib/v1/lexer.go: `CaptureField` and `SkipField` on any input neither panic nor run on.
use ffjson.Lexer.{FfLexer, Tok}
use ffjson.Lexer.Field.{
  Field, reader_error, lexed_badly, stuck, same_tok, simple_value, field_done, field_error,
  field_token, field_loop, opened, bracketed, string_field, scan_field, to_error,
}
use ffjson.Lexer.Moves.{Whole}
use ffjson.Lexer.Scan.Returns.{Scanned, scan-Scanned}
use ffjson.Lexer.Scan.{scan}
use ffjson.Lexer.Total.{Stays-from, Stays-then, Stays-whole}
use ffjson.Outcome.{Fault, Outcome, ok, err}
use ffjson.Reader.{Reader}
use ffjson.Reader.Strings.Bounds.{Stays}
use ffjson.Prelude.{
  ℕ, zero, suc, ◌+◌, ◌-◌, ◌≤◌, ◌<◌, ◌≡◌, refl, ap, Bool, true, false, inl, inr, arith, length,
  if◌then◌else◌, ◌==◌, Option, some, none,
}

-- Bytes, no bytes or an error came back, not a panic and not a loop without an end; the lexer is on the
-- same input, inside it, and has not moved backwards.
abbrev pub FieldReturns : Reader → Field × FfLexer → Type 0
FieldReturns r (stuck e, l) = ⊥
FieldReturns r (_, l) = Stays r.i r l.reader

module _ (r : Reader) (whole : r.l ≡ length r.s) where
  simple_value-Returns :
      (capture : Bool) (l : FfLexer)
      → Stays r.i r l.reader
      → FieldReturns r (simple_value capture l)
  unfolding simple_value
  simple_value-Returns true l h = h
  simple_value-Returns false l h = h

  field_done-Returns :
      (capture : Bool) (l : FfLexer) → Stays r.i r l.reader → FieldReturns r (field_done capture l)
  unfolding field_done simple_value
  field_done-Returns true l h = h
  field_done-Returns false l h = h

  field_error-Returns : (l : FfLexer) → Stays r.i r l.reader → FieldReturns r (field_error l)
  unfolding field_error
  field_error-Returns l h = by_error l.big_error
    where
      by_error :
          (e : Option Fault)
          → FieldReturns r
              (elim e [ some e ↦ reader_error e | none ↦ lexed_badly (to_error l.error) ], l)
      by_error (some e) = h
      by_error none = h

  field_if :
      (b : Bool) (x y : Field × FfLexer)
      → FieldReturns r x
      → FieldReturns r y
      → FieldReturns r (if b then x else y)
  field_if true x y hx hy = hx
  field_if false x y hx hy = hy

  field_token-Returns :
      (n : ℕ) (start end : Tok) (capture : Bool) (depth : ℕ) (again : ℕ → FfLexer → Field × FfLexer)
      (l : FfLexer) (x : Outcome Tok × FfLexer)
      → r.i ≤ n
      → Stays n r l.reader
      → ((depth : ℕ) (l : FfLexer) → Stays (suc n) r l.reader → FieldReturns r (again depth l))
      → Scanned l.reader x
      → FieldReturns r (field_token start end capture depth again x)
  unfolding field_token
  field_token-Returns n start end capture depth again l (err e, l') le h next s = elim s [ ]
  field_token-Returns n start end capture depth again l (ok t, l') le h next (inl s) =
      let forward =
        Stays-from (suc (l.reader.i)) (suc n) r l'.reader (Stays-then h s) (omega (arith, h.low)) in
      let back = Stays-from (suc n) r.i r l'.reader forward (omega arith) in
      field_if (same_tok t Tok.eof) _ _ back (
        field_if (same_tok t Tok.error) _ _ (field_error-Returns l' back) (
          field_if (same_tok t end) _ _
            (field_if (depth == 1) _ _ (field_done-Returns capture l' back)
              (next (depth - 1) l' forward))
            (field_if (same_tok t start) _ _ (next (depth + 1) l' forward)
              (next depth l' forward))))
  field_token-Returns n start end capture depth again l (ok t, l') le h next (inr (inl e, s)) =
      rw e (
        field_error-Returns l'
          (Stays-from (l.reader.i) r.i r l'.reader (Stays-then h s) (omega (arith, h.low))))
  field_token-Returns n start end capture depth again l (ok t, l') le h next (inr (inr e, s)) =
      rw e (Stays-from (l.reader.i) r.i r l'.reader (Stays-then h s) (omega (arith, h.low)))

  field_loop-Returns :
      (fuel n : ℕ) (start end : Tok) (capture : Bool) (depth : ℕ) (l : FfLexer)
      → r.i ≤ n
      → r.l < n + fuel
      → Stays n r l.reader
      → FieldReturns r (field_loop fuel start end capture depth l)
  unfolding field_loop
  field_loop-Returns zero n start end capture depth l le enough h =
      absurd (omega (arith, h.low, h.high))
  field_loop-Returns (suc fuel) n start end capture depth l le enough h =
      field_token-Returns n start end capture depth (field_loop fuel start end capture) l (scan l)
        le h
        (λ depth' l' h'.
          field_loop-Returns fuel (suc n) start end capture depth' l' (omega arith) (omega arith)
            h')
        (scan-Scanned l (Stays-whole whole h) (omega (arith, h.high, h.same_l)))

  bracketed-Returns :
      (start end : Tok) (b : ℕ) (capture : Bool) (l : FfLexer)
      → Stays r.i r l.reader
      → FieldReturns r (bracketed start end b capture l)
  unfolding bracketed
  bracketed-Returns start end b true l h =
      field_loop-Returns (suc (length l.reader.s)) r.i start end true 1 (opened true b l)
        (omega arith) (omega (arith, whole, ap length h.same_s)) h
  bracketed-Returns start end b false l h =
      field_loop-Returns (suc (length l.reader.s)) r.i start end false 1 (opened false b l)
        (omega arith) (omega (arith, whole, ap length h.same_s)) h

  string_field-Returns :
      (capture : Bool) (l : FfLexer)
      → Stays r.i r l.reader
      → FieldReturns r (string_field capture l)
  unfolding string_field
  string_field-Returns true l h = h
  string_field-Returns false l h = h

-- `scanField`, the body of `CaptureField` and `SkipField`, from any token and on any input, from a
-- position inside the slice, the reader's limit being the length of its slice: it returns bytes, no
-- bytes or an error, never by a panic and never without an end; the input is as it was, and the lexer
-- has not moved backwards or out of it.
pub scan_field-Returns :
    (start : Tok) (capture : Bool) (l : FfLexer)
    → Whole l
    → l.reader.i ≤ l.reader.l
    → FieldReturns l.reader (scan_field start capture l)
unfolding scan_field
scan_field-Returns start capture l whole inside = by_token start
  where
    here : Stays l.reader.i l.reader l.reader
    here = record { same_s = refl; same_l = refl; low = omega arith; high = inside }

    simple : FieldReturns l.reader (simple_value capture l)
    simple = simple_value-Returns l.reader whole capture l here

    by_token : (t : Tok) → FieldReturns l.reader (scan_field t capture l)
    by_token Tok.left_brace =
        bracketed-Returns l.reader whole Tok.left_brace Tok.right_brace b'[' capture l here
    by_token Tok.left_bracket =
        bracketed-Returns l.reader whole Tok.left_bracket Tok.right_bracket b'{' capture l here
    by_token Tok.bool = simple
    by_token Tok.integer = simple
    by_token Tok.null = simple
    by_token Tok.double = simple
    by_token Tok.string = string_field-Returns l.reader whole capture l here
    by_token Tok.init = here
    by_token Tok.colon = here
    by_token Tok.comma = here
    by_token Tok.eof = here
    by_token Tok.error = here
    by_token Tok.right_brace = here
    by_token Tok.right_bracket = here
    by_token Tok.comment = here
