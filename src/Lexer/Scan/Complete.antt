-- ===== src/Lexer/Scan/Complete.antt =====
-- fflib/v1/lexer.go: whole calls of `Scan` without `captureAll`.
use ffjson.Lexer.{FfLexer, Tok, LexErr}
use ffjson.Lexer.Moves.{moved, head, Whole}
use ffjson.Lexer.Scan.{
  scan, scan_loop, scan_read, scan_read_byte, on_scan_read, lexed, token_at, is_space,
}
use ffjson.Lexer.Scan.Lexemes.{Lexeme, Lexeme-head, token_at-Lexeme}
use ffjson.Outcome.{Fault, ok}
use ffjson.Reader
use ffjson.Reader.Position.{Blanks, read_byte_no_ws-Blanks, read_byte_no_ws-end}
use ffjson.Tables.{blank}
use ffjson.Prelude.{
  ℕ, suc, ◌+◌, ◌≡◌, ap, sym, ◌∙◌, Bool, false, some, [], ◌++◌, Bytes, length, drop, drop-append,
  if◌then◌else◌, arith,
}

-- The lexer as the loop of `Scan` finds it.
abbrev started : FfLexer → FfLexer
started l = record l { output = []; token = Tok.init }

is_space-blank : (c : ℕ) → blank c ≡ false → is_space c ≡ false
is_space-blank c h = ground arith

scan_read_byte-plain :
    (l : FfLexer)
    → l.capture_all ≡ false
    → scan_read_byte l ≡ on_scan_read l (Reader.read_byte_no_ws l.reader)
unfolding scan_read_byte
scan_read_byte-plain l plain =
    ap
      (λ (b : Bool).
        on_scan_read l (if b then Reader.read_byte l.reader else Reader.read_byte_no_ws l.reader))
      plain

scan-started :
    (l : FfLexer)
    → l.capture_all ≡ false
    → scan l
      ≡ scan_read
          (scan_loop (length l.reader.s))
          (on_scan_read (started l) (Reader.read_byte_no_ws l.reader))
unfolding scan scan_loop
scan-started l plain =
    ap
      (λ (b : Bool).
        scan_loop (suc (length l.reader.s))
          (record l { output = if b then l.output else []; token = Tok.init }))
      plain
    ∙ ap (scan_read (scan_loop (length l.reader.s))) (scan_read_byte-plain (started l) plain)

-- `Scan` without `captureAll`, at blanks and a token of the grammar, the reader's limit being the
-- length of its slice: it returns the token and stores it, the output is what the lexer keeps of the
-- token and nothing else, and the reader stands behind the token.
pub scan-Lexeme :
    {cs text rest out : Bytes} {tok : Tok} (l : FfLexer)
    → Whole l
    → l.capture_all ≡ false
    → Blanks cs
    → Lexeme text rest out tok
    → drop l.reader.i l.reader.s ≡ cs ++ (text ++ rest)
    → scan l ≡ (
      ok tok,
      record (moved l (l.reader.i + length cs + length text)) { output = out; token = tok },
    )
unfolding scan_read on_scan_read lexed
scan-Lexeme {cs} {text} {rest} l whole plain blanks k at =
    let (c, t, same, no_blank) = Lexeme-head k in
    let n = l.reader.i + length cs in
    let first = ap (λ s. head s) same in
    let at_text = drop-append l.reader.s cs l.reader.i at in
    scan-started l plain
    ∙ ap (λ o. scan_read (scan_loop (length l.reader.s)) (on_scan_read (started l) o))
        (read_byte_no_ws-Blanks l.reader c (t ++ rest) whole blanks no_blank
          (at ∙ ap (λ s. cs ++ (s ++ rest)) same))
    ∙ rw (is_space-blank c no_blank) (
        ap (λ b. lexed (token_at b (moved (started l) (n + 1)))) (sym first)
        ∙ ap lexed (token_at-Lexeme (moved (started l) n) plain whole k at_text))

-- `Scan` without `captureAll` with nothing but blanks left: `FFTok_eof`, with `io.EOF` stored and an
-- empty output.
pub scan-end :
    {cs : Bytes} (l : FfLexer)
    → Whole l
    → l.capture_all ≡ false
    → Blanks cs
    → drop l.reader.i l.reader.s ≡ cs
    → scan l ≡ (
      ok Tok.eof,
      record l { output = []; token = Tok.init; error = LexErr.io; big_error = some Fault.eof },
    )
unfolding scan_read on_scan_read
scan-end l whole plain blanks at =
    scan-started l plain
    ∙ ap (λ o. scan_read (scan_loop (length l.reader.s)) (on_scan_read (started l) o))
        (read_byte_no_ws-end l.reader whole blanks at)
