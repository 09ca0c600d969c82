-- ===== src/Lexer.antt =====
-- fflib/v1/lexer.go: `FFLexer`. A method is a function of the lexer that leaves a value, the token that
-- it returned early, or a panic, and the lexer after it. Output, the decoding buffer, is its bytes.
pub mod Moves
pub mod Number
pub mod Scan
pub mod Field
pub mod Total
use ffjson.JsonString.{write_json}
use ffjson.Outcome.{Fault, Outcome, ok, err}
use ffjson.Reader
use ffjson.Reader.{Reader}
use ffjson.Reader.Strings.{Written, slice_string}
use ffjson.Prelude.{
  ℕ, zero, suc, ◌+◌, Bool, true, false, ◌||◌, Option, none, some, [], ◌∷◌, ◌++◌, ◌==◌, between,
  if◌then◌else◌, Bytes, codes, length,
}

-- `FFTok`; the lexer calls the braces brackets, and the other way round.
pub data Tok : Type 0 where
  init bool colon comma eof error left_brace left_bracket null : Tok
  right_brace right_bracket integer double string comment : Tok

-- `FFErr`
pub data LexErr : Type 0 where
  e_ok io string_invalid_utf8 string_invalid_escaped_char string_invalid_json_char : LexErr
  string_invalid_hex_char invalid_char invalid_string missing_integer_after_decimal : LexErr
  missing_integer_after_exponent missing_integer_after_minus unallowed_comment : LexErr
  incomplete_comment unexpected_token_type : LexErr

pub record FfLexer : Type 0 where
  pub reader : Reader
  pub output : Bytes
  pub token : Tok
  pub error : LexErr
  pub big_error : Option Fault
  pub last_current_char : ℕ
  pub capture_all : Bool
  pub buf : Bytes

unfoldable pub new_ff_lexer : Bytes → FfLexer
new_ff_lexer input = record {
  reader = Reader.new_ff_reader input;
  output = [];
  token = Tok.init;
  error = LexErr.e_ok;
  big_error = none;
  last_current_char = 0;
  capture_all = false;
  buf = [];
}

-- `Reset`, which leaves `captureAll` and `buf` as they are.
unfoldable pub reset : FfLexer → Bytes → FfLexer
reset l input = record l {
  token = Tok.init;
  error = LexErr.e_ok;
  big_error = none;
  reader = Reader.reset l.reader input;
  last_current_char = 0;
  output = [];
}

-- A value for what follows, or the token that the method returns, or a panic; `crash` is also a loop
-- that ran out of fuel.
pub data Flow (A : Type 0) : Type 0 where
  val : A → Flow A
  ret : Tok → Flow A
  crash : Flow A

abbrev pub M : Type 0 → Type 0
M A = FfLexer → Flow A × FfLexer

-- What stands behind a step that left a value.
abbrev pub continue : {A B : Type 0} → (A → M B) → Flow A × FfLexer → Flow B × FfLexer
continue f (val a, l) = f a l
continue f (ret t, l) = (ret t, l)
continue f (crash, l) = (crash, l)

infixl 5 ◌>>=◌ ◌>>◌
abbrev pub ◌>>=◌ : {A B : Type 0} → M A → (A → M B) → M B
◌>>=◌ m f l = continue f (m l)

abbrev pub ◌>>◌ : {A B : Type 0} → M A → M B → M B
◌>>◌ m k l = continue (λ _. k) (m l)

abbrev pub pure : {A : Type 0} → A → M A
pure a l = (val a, l)

abbrev pub return : {A : Type 0} → Tok → M A
return t l = (ret t, l)

-- `ffl.Error = e`, and `FFTok_error` is returned.
abbrev pub fail_with : {A : Type 0} → LexErr → M A
fail_with e l = (ret Tok.error, record l { error = e })

-- `readByte`; its callers return `FFTok_error` on an error.
pub on_read : FfLexer → Outcome ℕ × Reader → Flow ℕ × FfLexer
on_read l (ok c, r) = (val c, record l { reader = r })
on_read l (err Fault.panic, r) = (crash, l)
on_read l (err e, r) =
    (ret Tok.error, record l { reader = r; error = LexErr.io; big_error = some e })

unfoldable pub read_byte : M ℕ
unfolding on_read
read_byte l = on_read l (Reader.read_byte l.reader)

pub on_unread : FfLexer → Outcome Reader → Flow (Unit {0}) × FfLexer
on_unread l (ok r) = (val tt, record l { reader = r })
on_unread l (err e) = (crash, l)

unfoldable pub unread_byte : M (Unit {0})
unfolding on_unread
unread_byte l = on_unread l (Reader.unread_byte l.reader)

-- `ffl.Output.Write(bytes)`
abbrev pub write : Bytes → M (Unit {0})
write bytes l = (val tt, record l { output = l.output ++ bytes })

pub on_slice : FfLexer → Outcome Bytes → Flow (Unit {0}) × FfLexer
on_slice l (ok bytes) = write bytes l
on_slice l (err e) = (crash, l)

-- `endPos := Pos(); Output.Write(Slice(startPos, endPos))`
unfoldable pub write_from : ℕ → M (Unit {0})
unfolding on_slice
write_from start l = on_slice l (Reader.slice_of l.reader start (Reader.pos l.reader))

pub want_loop : Bytes → M (Unit {0})
want_loop [] = pure tt
want_loop (b ∷ want) = do
  c ← read_byte
  if c == b then want_loop want else unread_byte >> fail_with LexErr.invalid_string

pub want_bytes : Bytes → Tok → M Tok
want_bytes want iftrue l =
    continue (λ _. write_from (Reader.pos l.reader) >> pure iftrue) (want_loop want l)
