-- ===== src/Lexer/Scan.antt =====
-- fflib/v1/lexer.go: `lexComment`, `lexString`, `Scan`.
pub mod Lexemes
pub mod Complete
pub mod Comments
pub mod Total
pub mod Returns
use ffjson.JsonString.{write_json}
use ffjson.Lexer.{
  FfLexer, Tok, LexErr, Flow, val, ret, crash, M, ◌>>=◌, ◌>>◌, pure, fail_with, read_byte,
  unread_byte, write, want_bytes,
}
use ffjson.Lexer.Number.{lex_number}
use ffjson.Outcome.{Fault, Outcome, ok, err}
use ffjson.Reader
use ffjson.Reader.{Reader}
use ffjson.Reader.Strings.{Written, slice_string}
use ffjson.Prelude.{
  ℕ, zero, suc, Bool, true, false, ◌||◌, some, [], ◌∷◌, ◌==◌, between, if◌then◌else◌, codes, length,
}

-- A `//` comment runs to the end of its line.
pub line_comment : ℕ → M Tok
line_comment zero l = (crash, l)
line_comment (suc fuel) l =
    (read_byte >>= λ c. elim (c == b'\n') [ true ↦ pure Tok.comment | false ↦ line_comment fuel ]) l

-- Behind a `*` inside a comment.
pub close_comment : M Tok
close_comment = do
  c ← read_byte
  if c == b'/' then pure Tok.comment else fail_with LexErr.incomplete_comment

pub block_comment : ℕ → M Tok
block_comment zero l = (crash, l)
block_comment (suc fuel) l =
    (read_byte >>= λ c. elim (c == b'*') [ true ↦ close_comment | false ↦ block_comment fuel ]) l

-- A round for each byte of the input, and one more, is enough.
pub comment_kind : ℕ → M Tok
comment_kind c l =
    if c == b'/'
    then line_comment (suc (length l.reader.s)) l
    else if c == b'*'
    then block_comment (suc (length l.reader.s)) l
    else fail_with LexErr.incomplete_comment l

unfoldable pub lex_comment : M Tok
unfolding comment_kind block_comment close_comment line_comment
lex_comment = do c ← read_byte; comment_kind c

-- With `captureAll` the string is read into `buf` and written to the output with its quotes.
pub captured_string : FfLexer → Written (Unit {0}) → Flow Tok × FfLexer
captured_string l (ok _, r, b) =
    (val Tok.string, record l { reader = r; buf = b; output = write_json l.output b })
captured_string l (err Fault.panic, r, b) = (crash, l)
captured_string l (err e, r, b) =
    (ret Tok.error, record l { reader = r; buf = b; big_error = some e })

pub plain_string : FfLexer → Written (Unit {0}) → Flow Tok × FfLexer
plain_string l (ok _, r, out) = (val Tok.string, record l { reader = r; output = out })
plain_string l (err Fault.panic, r, out) = (crash, l)
plain_string l (err e, r, out) =
    (ret Tok.error, record l { reader = r; output = out; big_error = some e })

unfoldable pub lex_string : M Tok
unfolding captured_string plain_string
lex_string l =
    if l.capture_all
    then captured_string l (slice_string l.reader [])
    else plain_string l (slice_string l.reader l.output)

-- `if ffl.captureAll { ffl.Output.WriteByte(c) }`
pub echo : ℕ → M (Unit {0})
echo c l = if l.capture_all then write (c ∷ []) l else pure tt l

pub punctuation : ℕ → Tok → M Tok
punctuation c tok = echo c >> pure tok

abbrev pub is_number_start : ℕ → Bool
is_number_start c = c == b'-' || between b'0' b'9' c

-- The white space of the switch.
abbrev pub is_space : ℕ → Bool
is_space c = between b'\t' b'\r' c || c == b' '

-- The cases of the switch that end in `goto lexed`, but for the punctuation.
pub value_at : ℕ → M Tok
value_at c =
    if c == b't'
    then write (b't' ∷ []) >> want_bytes (codes "rue") Tok.bool
    else if c == b'f'
    then write (b'f' ∷ []) >> want_bytes (codes "alse") Tok.bool
    else if c == b'n'
    then write (b'n' ∷ []) >> want_bytes (codes "ull") Tok.null
    else if c == b'"'
    then lex_string
    else if is_number_start c
    then unread_byte >> lex_number
    else if c == b'/'
    then lex_comment
    else fail_with LexErr.invalid_char

pub token_at : ℕ → M Tok
token_at c =
    if c == b'{'
    then punctuation c Tok.left_bracket
    else if c == b'}'
    then punctuation c Tok.right_bracket
    else if c == b'['
    then punctuation c Tok.left_brace
    else if c == b']'
    then punctuation c Tok.right_brace
    else if c == b','
    then punctuation c Tok.comma
    else if c == b':'
    then punctuation c Tok.colon
    else value_at c

-- `scanReadByte`, and what `Scan` returns on its error.
pub on_scan_read : FfLexer → Outcome ℕ × Reader → Flow ℕ × FfLexer
on_scan_read l (ok c, r) = (val c, record l { reader = r })
on_scan_read l (err Fault.panic, r) = (crash, l)
on_scan_read l (err Fault.eof, r) =
    (ret Tok.eof, record l { reader = r; error = LexErr.io; big_error = some Fault.eof })
on_scan_read l (err e, r) =
    (ret Tok.error, record l { reader = r; error = LexErr.io; big_error = some e })

pub scan_read_byte : M ℕ
scan_read_byte l =
    on_scan_read l
      (if l.capture_all then Reader.read_byte l.reader else Reader.read_byte_no_ws l.reader)

-- The label `lexed`: a token that a method returned, early or not, is stored.
pub lexed : Flow Tok × FfLexer → Outcome Tok × FfLexer
lexed (val t, l) = (ok t, record l { token = t })
lexed (ret t, l) = (ok t, record l { token = t })
lexed (crash, l) = (err Fault.panic, l)

-- Behind `scanReadByte`: its errors return at once.
pub scan_read : (FfLexer → Outcome Tok × FfLexer) → Flow ℕ × FfLexer → Outcome Tok × FfLexer
scan_read again (val c, l) = if is_space c then again (echo c l).1 else lexed (token_at c l)
scan_read again (ret t, l) = (ok t, l)
scan_read again (crash, l) = (err Fault.panic, l)

-- The loop of `Scan`: white space goes round again, which only `captureAll` lets through.
pub scan_loop : ℕ → FfLexer → Outcome Tok × FfLexer
scan_loop zero l = (err Fault.no_fuel, l)
scan_loop (suc fuel) l = scan_read (scan_loop fuel) (scan_read_byte l)

-- A round for each byte of the input, and one more, is enough.
unfoldable pub scan : FfLexer → Outcome Tok × FfLexer
unfolding scan_loop scan_read scan_read_byte on_scan_read lexed token_at value_at punctuation echo
scan l =
    scan_loop (suc (length l.reader.s))
      (record l { output = if l.capture_all then l.output else []; token = Tok.init })
