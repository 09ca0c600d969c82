-- ===== src/Lexer/Number.antt =====
-- fflib/v1/lexer.go: `lexNumber`, piece by piece.
pub mod Grammar
pub mod Token
pub mod Stages
pub mod Complete
pub mod Total
use ffjson.Lexer.{
  Tok, LexErr, crash, M, ◌>>=◌, ◌>>◌, pure, fail_with, read_byte, unread_byte, write_from,
}
use ffjson.Reader
use ffjson.Prelude.{
  ℕ, zero, suc, ◌+◌, Bool, true, false, ◌||◌, ◌==◌, between, if◌then◌else◌, length,
}

abbrev pub is_digit : ℕ → Bool
is_digit = between b'0' b'9'

-- `for c >= '0' && c <= '9' { numRead++; c, err = readByte() }`
pub digits_loop : ℕ → ℕ → ℕ → M (ℕ × ℕ)
digits_loop zero c num_read l = (crash, l)
digits_loop (suc fuel) c num_read l = elim (is_digit c) [
  | false ↦ pure (c, num_read) l
  | true ↦ (read_byte >>= λ d. digits_loop fuel d (num_read + 1)) l
]

-- A round for each byte of the input, and one more, is enough.
pub read_digits : ℕ → M (ℕ × ℕ)
read_digits c l = digits_loop (suc (length l.reader.s)) c 0 l

-- The optional leading minus.
pub minus : ℕ → M ℕ
minus c = if c == b'-' then read_byte else pure c

-- A single zero, or a series of digits.
pub int_part : ℕ → M ℕ
int_part c =
    if c == b'0'
    then read_byte
    else if between b'1' b'9' c
    then read_digits c >>= (λ (d, num_read). pure d)
    else unread_byte >> fail_with LexErr.missing_integer_after_minus

-- Behind the digits of the fraction: the byte read last, and how many there were.
pub fraction_end : ℕ × ℕ → M (ℕ × Tok)
fraction_end (c, num_read) =
    if num_read == 0
    then unread_byte >> fail_with LexErr.missing_integer_after_decimal
    else pure (c, Tok.double)

pub fraction : ℕ → M (ℕ × Tok)
fraction c = if c == b'.' then read_byte >>= read_digits >>= fraction_end else pure (c, Tok.integer)

-- The optional sign of the exponent.
pub exponent_sign : ℕ → M ℕ
exponent_sign c = if c == b'+' || c == b'-' then read_byte else pure c

pub exponent_end : ℕ × ℕ → M (ℕ × Tok)
exponent_end (c, num_read) =
    if num_read == 0 then fail_with LexErr.missing_integer_after_exponent else pure (c, Tok.double)

pub exponent : ℕ × Tok → M (ℕ × Tok)
exponent (c, tok) =
    if c == b'e' || c == b'E'
    then read_byte >>= exponent_sign >>= read_digits >>= exponent_end
    else pure (c, tok)

-- Behind the number and one byte more.
pub number_end : ℕ → ℕ × Tok → M Tok
number_end start (c, tok) = do unread_byte; write_from start; pure tok

-- Behind the first byte; `start` is the position in front of it.
pub number_from : ℕ → ℕ → M Tok
number_from start b = minus b >>= int_part >>= fraction >>= exponent >>= number_end start

unfoldable pub lex_number : M Tok
unfolding number_from number_end exponent exponent_end exponent_sign fraction fraction_end int_part
    minus read_digits digits_loop
lex_number l = (read_byte >>= number_from (Reader.pos l.reader)) l
