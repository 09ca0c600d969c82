-- ===== src/Lexer/Field.antt =====
-- fflib/v1/lexer.go: `scanField`, `CaptureField` and `SkipField`, and the errors that they return.
pub mod Returns
use ffjson.JsonString.{write_json}
use ffjson.Lexer.{FfLexer, Tok, LexErr}
use ffjson.Lexer.Scan.{scan}
use ffjson.Outcome.{Fault, Outcome, ok, err}
use ffjson.Prelude.{
  ℕ, zero, suc, ◌+◌, ◌-◌, Bool, true, false, Option, none, some, [], ◌∷◌, ◌++◌, ◌==◌, if◌then◌else◌,
  Bytes, String, length,
}

-- `ToError`: the message, or `nil`.
unfoldable pub to_error : LexErr → Option String
to_error LexErr.e_ok = none
to_error LexErr.io = some "ffjson: IO error"
to_error LexErr.string_invalid_utf8 = some "ffjson: string with invalid UTF-8 sequence"
to_error LexErr.string_invalid_escaped_char = some "ffjson: string with invalid escaped character"
to_error LexErr.string_invalid_json_char = some "ffjson: string with invalid JSON character"
to_error LexErr.string_invalid_hex_char = some "ffjson: string with invalid hex character"
to_error LexErr.invalid_char = some "ffjson: invalid character"
to_error LexErr.invalid_string = some "ffjson: invalid string"
to_error LexErr.missing_integer_after_decimal = some "ffjson: missing integer after decimal"
to_error LexErr.missing_integer_after_exponent = some "ffjson: missing integer after exponent"
to_error LexErr.missing_integer_after_minus = some "ffjson: missing integer after minus"
to_error LexErr.unallowed_comment = some "ffjson: unallowed comment"
to_error LexErr.incomplete_comment = some "ffjson: incomplete comment"
to_error LexErr.unexpected_token_type = some "ffjson: unexpected token sequence"

-- The value of the constant, counted by `iota`.
abbrev pub tok_code : Tok → ℕ
tok_code Tok.init = 0
tok_code Tok.bool = 1
tok_code Tok.colon = 2
tok_code Tok.comma = 3
tok_code Tok.eof = 4
tok_code Tok.error = 5
tok_code Tok.left_brace = 6
tok_code Tok.left_bracket = 7
tok_code Tok.null = 8
tok_code Tok.right_brace = 9
tok_code Tok.right_bracket = 10
tok_code Tok.integer = 11
tok_code Tok.double = 12
tok_code Tok.string = 13
tok_code Tok.comment = 14

abbrev pub same_tok : Tok → Tok → Bool
same_tok a b = tok_code a == tok_code b

-- What `scanField` returns: the bytes, or `nil` with no error, or an error. `lexed_badly` is the value
-- of `ToError`, and `stuck` a panic or a loop without fuel.
pub data Field : Type 0 where
  bytes : Bytes → Field
  nothing : Field
  unexpected_eof : Field
  reader_error : Fault → Field
  lexed_badly : Option String → Field
  invalid_capture_type : Tok → Field
  stuck : Fault → Field

-- `if capture { return ffl.Output.Bytes(), nil } else { return nil, nil }`
pub simple_value : Bool → FfLexer → Field × FfLexer
simple_value capture l = (if capture then bytes l.output else nothing, l)

-- Behind the closing bracket.
pub field_done : Bool → FfLexer → Field × FfLexer
unfolding simple_value
field_done capture l =
    simple_value capture (if capture then record l { capture_all = false } else l)

pub field_error : FfLexer → Field × FfLexer
field_error l =
    (elim (l.big_error) [ some e ↦ reader_error e | none ↦ lexed_badly (to_error l.error) ], l)

-- The switch on the token, `again` being the next round at a depth.
pub field_token :
    Tok → Tok → Bool → ℕ → (ℕ → FfLexer → Field × FfLexer) → Outcome Tok × FfLexer → Field × FfLexer
unfolding field_done field_error
field_token start end capture depth again (err e, l) = (stuck e, l)
field_token start end capture depth again (ok tok, l) =
    if same_tok tok Tok.eof
    then (unexpected_eof, l)
    else if same_tok tok Tok.error
    then field_error l
    else if same_tok tok end
    then (if depth == 1 then field_done capture l else again (depth - 1) l)
    else if same_tok tok start
    then again (depth + 1) l
    else again depth l

-- `scanloop`; a round reads a token.
pub field_loop : ℕ → Tok → Tok → Bool → ℕ → FfLexer → Field × FfLexer
unfolding field_token
field_loop zero start end capture depth l = (stuck Fault.no_fuel, l)
field_loop (suc fuel) start end capture depth l =
    field_token start end capture depth (field_loop fuel start end capture) (scan l)

-- The opening bracket is written, and `captureAll` set.
abbrev pub opened : Bool → ℕ → FfLexer → FfLexer
opened capture b l =
    if capture then record l { output = l.output ++ b ∷ []; capture_all = true } else l

-- A round for each byte of the input, and one more.
pub bracketed : Tok → Tok → ℕ → Bool → FfLexer → Field × FfLexer
unfolding field_loop
bracketed start end b capture l =
    field_loop (suc (length l.reader.s)) start end capture 1 (opened capture b l)

pub string_field : Bool → FfLexer → Field × FfLexer
string_field capture l =
    if capture
    then (bytes (write_json [] l.output), record l { buf = write_json [] l.output })
    else (nothing, l)

unfoldable pub scan_field : Tok → Bool → FfLexer → Field × FfLexer
unfolding bracketed simple_value string_field
scan_field Tok.left_brace capture l = bracketed Tok.left_brace Tok.right_brace b'[' capture l
scan_field Tok.left_bracket capture l = bracketed Tok.left_bracket Tok.right_bracket b'{' capture l
scan_field Tok.bool capture l = simple_value capture l
scan_field Tok.integer capture l = simple_value capture l
scan_field Tok.null capture l = simple_value capture l
scan_field Tok.double capture l = simple_value capture l
scan_field Tok.string capture l = string_field capture l
scan_field start capture l = (invalid_capture_type start, l)

unfoldable pub capture_field : Tok → FfLexer → Field × FfLexer
capture_field start l = scan_field start true l

unfoldable pub skip_field : Tok → FfLexer → Field × FfLexer
skip_field start l = scan_field start false l
