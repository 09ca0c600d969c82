-- ===== src/LexerTests.antt =====
-- Runs of the lexer on small inputs, and its theorems at inputs that meet their hypotheses.
use ffjson.Lexer
use ffjson.Lexer.{FfLexer, Tok, LexErr, val, ret}
use ffjson.Lexer.Field.{bytes, capture_field, scan_field}
use ffjson.Lexer.Field.Returns.{FieldReturns, scan_field-Returns}
use ffjson.Lexer.Moves.{moved}
use ffjson.Lexer.Number.{lex_number}
use ffjson.Lexer.Number.Complete.{lex_number-NumberText}
use ffjson.Lexer.Number.Grammar.{Digits, Sign, IntPart, Fraction, Exponent, IsEnd, NumberText}
use ffjson.Lexer.Scan.{scan, lex_comment}
use ffjson.Lexer.Scan.Comments.{NoStar, lex_comment-NoStar}
use ffjson.Lexer.Scan.Complete.{scan-Lexeme, scan-end}
use ffjson.Lexer.Scan.Lexemes.{Lexeme}
use ffjson.Lexer.Scan.Returns.{Scanned, scan-Scanned}
use ffjson.Outcome.{Fault, ok, err}
use ffjson.Reader
use ffjson.Reader.{Reader, read_byte_no_ws}
use ffjson.Reader.Strings.Total.{Returns, slice_string-Returns}
use ffjson.Reader.Strings.{slice_string}
use ffjson.Reader.Position.{Blanks, read_byte_no_ws-Blanks, read_byte_no_ws-end}
use ffjson.Prelude.{ℕ, ◌≡◌, ◌≢◌, refl, inl, false, some, none, [], codes, arith, true}

abbrev number_lexer : FfLexer
number_lexer = record {
  reader = record { s = codes "\t-12.5e3,"; i = 1; l = 9 };
  output = [];
  token = Tok.init;
  error = LexErr.e_ok;
  big_error = none;
  last_current_char = 0;
  capture_all = false;
  buf = [];
}

abbrev some_number : NumberText (codes "-12.5e3") Tok.double
some_number = record {
  sign = codes "-";
  int = codes "12";
  frac = codes ".5";
  exp = codes "e3";
  frac_tok = Tok.double;
  text_eq = refl;
  sign_ok = Sign.minus;
  int_ok = IntPart.nonzero refl (Digits.one_digit refl Digits.no_digit);
  frac_ok = Fraction.point refl Digits.no_digit;
  exp_ok = Exponent.power (inl refl) refl Digits.no_digit;
}

comma_not_point : ◌≢◌ {A = ℕ} b',' b'.'
comma_not_point = ground arith

abbrev comma_ends : IsEnd b','
comma_ends = record { not_digit = refl; not_point = comma_not_point; not_exp = refl }

lex_number-NumberText_example :
    lex_number number_lexer
    ≡ (val Tok.double, record (moved number_lexer 8) { output = codes "-12.5e3" })
lex_number-NumberText_example =
    lex_number-NumberText number_lexer b',' [] refl some_number comma_ends refl

abbrev start_lexer : FfLexer
start_lexer = record number_lexer { reader = record { s = codes "\t-12.5e3,"; i = 0; l = 9 } }

abbrev one_tab : Blanks (codes "\t")
one_tab = Blanks.one_blank refl Blanks.no_blank

scan-Lexeme_example :
    scan start_lexer
    ≡ (ok Tok.double, record (moved start_lexer 8) { output = codes "-12.5e3"; token = Tok.double })
scan-Lexeme_example =
    scan-Lexeme start_lexer refl refl one_tab (Lexeme.numeral some_number comma_ends) refl

abbrev blank_reader : Reader
blank_reader = record { s = codes "1\t"; i = 1; l = 2 }

scan-end_example : scan (record number_lexer { reader = blank_reader }) ≡ (
  ok Tok.eof,
  record number_lexer { reader = blank_reader; error = LexErr.io; big_error = some Fault.eof },
)
scan-end_example = scan-end (record number_lexer { reader = blank_reader }) refl refl one_tab refl

read_byte_no_ws-Blanks_example :
    read_byte_no_ws start_lexer.reader ≡ (ok b'-', record start_lexer.reader { i = 2 })
read_byte_no_ws-Blanks_example =
    read_byte_no_ws-Blanks start_lexer.reader b'-' (codes "12.5e3,") refl one_tab refl refl

read_byte_no_ws-end_example : read_byte_no_ws blank_reader ≡ (err Fault.eof, blank_reader)
read_byte_no_ws-end_example = read_byte_no_ws-end blank_reader refl one_tab refl

-- A captured array, and the first token behind it.
captured_array :
    (capture_field Tok.left_brace
      (record start_lexer { reader = record { s = codes "1, [2]] "; i = 0; l = 8 } })).0
    ≡ bytes (codes "[1, [2]]")
unfolding capture_field scan_field scan lex_number Lexer.read_byte Lexer.unread_byte
    Lexer.write_from Reader.read_byte Reader.unread_byte Reader.slice_of read_byte_no_ws
captured_array = refl

abbrev comment_lexer : FfLexer
comment_lexer = record number_lexer { reader = record { s = codes "/*ab**/"; i = 1; l = 7 } }

a_no_star : ◌≢◌ {A = ℕ} b'a' b'*'
a_no_star = ground arith

b_no_star : ◌≢◌ {A = ℕ} b'b' b'*'
b_no_star = ground arith

abbrev ab_free : NoStar (codes "ab")
ab_free = NoStar.one_byte a_no_star (NoStar.one_byte b_no_star NoStar.no_byte)

lex_comment-NoStar_example :
    lex_comment comment_lexer
    ≡ (ret Tok.error, record (moved comment_lexer 6) { error = LexErr.incomplete_comment })
lex_comment-NoStar_example = lex_comment-NoStar comment_lexer b'*' (codes "/") refl ab_free refl

-- A string without its closing quote, behind a bracket, in a lexer that captures.
abbrev open_string : Reader
open_string = record { s = codes "[1, \"a\\u12"; i = 1; l = 10 }

abbrev open_lexer : FfLexer
open_lexer = record number_lexer { reader = open_string; capture_all = true }

slice_string-Returns_example :
    Returns 5 (record open_string { i = 5 }) (slice_string (record open_string { i = 5 }) [])
slice_string-Returns_example =
    slice_string-Returns (record open_string { i = 5 }) [] refl (omega arith)

scan-Scanned_example : Scanned open_string (scan open_lexer)
scan-Scanned_example = scan-Scanned open_lexer refl (omega arith)

scan_field-Returns_example : FieldReturns open_string (scan_field Tok.left_brace true open_lexer)
scan_field-Returns_example = scan_field-Returns Tok.left_brace true open_lexer refl (omega arith)
