-- ===== src/FloatTests.antt =====
-- Runs of the printing of floating-point numbers, and its theorems at numbers that meet the hypotheses.
use ffjson.Decimal.Shift.{shift}
use ffjson.Decimal.{pos, negsuc, assign, moved as decimal_moved, round_down}
use ffjson.Float.Append.{FastPaths, append_float}
use ffjson.Float.Append.Infinite.{append_float-special}
use ffjson.Float.Lexed.{lex_number-format_digits}
use ffjson.Float.{format_digits}
use ffjson.Lexer.Moves.{moved}
use ffjson.Lexer.Number.Grammar.{NumberText, IsEnd}
use ffjson.Lexer.Number.{lex_number}
use ffjson.Lexer.Number.Token.{token_of}
use ffjson.Lexer.{FfLexer, LexErr, Tok, val}
use ffjson.Outcome.{ok}
use ffjson.Prelude.{
  ℕ, ◌≡◌, ◌≢◌, ◌+◌, refl, inl, inr, true, false, none, [], ◌++◌, Bytes, codes, length, arith,
}

-- The fast paths give up.
abbrev no_fast_path : FastPaths
no_fast_path = record { shortest_decimal = λ m e n f. none; fixed_decimal = λ m e n c. none }

-- The bits of 1.5, of -0.1 and of infinity.
three_halves : append_float no_fast_path 0x3FF8000000000000 b'g' (negsuc 0) 64 ≡ ok (codes "1.5")
unfolding append_float shift assign decimal_moved format_digits
three_halves = refl

tenth : append_float no_fast_path 0xBFB999999999999A b'g' (negsuc 0) 64 ≡ ok (codes "-0.1")
unfolding append_float shift assign decimal_moved format_digits round_down
tenth = refl

append_float-special_example :
    (text : Bytes) × (append_float no_fast_path 0x7FF0000000000000 b'g' (negsuc 0) 64 ≡ ok text)
    × ((tok : Tok) → NumberText text tok → ⊥)
append_float-special_example =
    append_float-special no_fast_path 0x7FF0000000000000 b'g' (negsuc 0) refl

abbrev printed_lexer : FfLexer
printed_lexer = record {
  reader = record { s = codes "-3.14e+30,"; i = 0; l = 10 };
  output = [];
  token = Tok.init;
  error = LexErr.e_ok;
  big_error = none;
  last_current_char = 0;
  capture_all = false;
  buf = [];
}

point_differs : ◌≢◌ {A = ℕ} b',' b'.'
point_differs = ground arith

abbrev comma_closes : IsEnd b','
comma_closes = record { not_digit = refl; not_point = point_differs; not_exp = refl }

-- -3.14e+30, as `AppendFloat` lays out its shortest digits in the format g.
lex_number-format_digits_example : lex_number printed_lexer ≡ (
  val (token_of (format_digits true true (codes "314") (pos 31) (pos 3) b'g')),
  record (moved printed_lexer
      (0 + length (format_digits true true (codes "314") (pos 31) (pos 3) b'g'))) {
        output = [] ++ format_digits true true (codes "314") (pos 31) (pos 3) b'g';
      },
)
unfolding decimal_moved format_digits
lex_number-format_digits_example =
    lex_number-format_digits true true (codes "314") (pos 31) (pos 3) b'g' printed_lexer b',' []
      (omega arith) (omega arith) (inr (inr (inl refl))) refl comma_closes refl
