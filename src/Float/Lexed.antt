-- ===== src/Float/Lexed.antt =====
-- fflib/v1/ftoa.go and lexer.go: the number that `formatDigits` writes, read by `lexNumber`.
use ffjson.Decimal.{ℤ, pos, pos_part, moved}
use ffjson.Float.{fmt_g, format_digits, sub_ints, less}
use ffjson.Float.Numbers.{IsDecimal, IsShort, fmt_e-NumberText}
use ffjson.Float.Fixed.{fmt_f-NumberText}
use ffjson.Lexer.Moves.{Whole, moved as lexer_moved}
use ffjson.Lexer.Number.Complete.{lex_number-NumberText}
use ffjson.Lexer.Number.Grammar.{NumberText, IsE, IsEnd}
use ffjson.Lexer.Number.{lex_number}
use ffjson.Lexer.Number.Token.{token_of, NumberText-token_of}
use ffjson.Lexer.{Tok, FfLexer, val}
use ffjson.Prelude.{
  ℕ, ◌+◌, ◌-◌, ◌%◌, ◌≡◌, ◌⊎◌, refl, Bool, true, false, inl, inr, ◌∷◌, ◌++◌, if◌then◌else◌, Bytes,
  length, drop,
}

-- The formats that write a number.
abbrev pub IsNumberFormat : ℕ → Type 0
IsNumberFormat fmt = IsE fmt ⊎ (fmt ≡ b'f') ⊎ (fmt ≡ b'g') ⊎ (fmt ≡ b'G')

if-NumberText :
    (test : Bool) (s t : Bytes)
    → (tok : Tok) × NumberText s tok
    → (tok : Tok) × NumberText t tok
    → (tok : Tok) × NumberText (if test then s else t) tok
if-NumberText true s t h h' = h
if-NumberText false s t h h' = h'

fmt_g-NumberText :
    (shortest neg : Bool) (d : Bytes) (dp prec : ℤ) (fmt : ℕ)
    → IsDecimal d dp
    → IsShort (moved dp 0 1)
    → IsE ((fmt + b'e' - b'g') % 256)
    → (tok : Tok) × NumberText (fmt_g shortest neg d dp prec fmt) tok
unfolding fmt_g
fmt_g-NumberText shortest neg d dp prec fmt h short is_e =
    if-NumberText _ _ _ (Tok.double, fmt_e-NumberText neg d dp _ _ h short is_e)
      (fmt_f-NumberText neg d dp
        (pos (pos_part (sub_ints (if less dp prec then pos (length d) else prec) dp))) h)

format_digits-NumberText :
    (shortest neg : Bool) (d : Bytes) (dp prec : ℤ) (fmt : ℕ)
    → IsDecimal d dp
    → IsShort (moved dp 0 1)
    → IsNumberFormat fmt
    → (tok : Tok) × NumberText (format_digits shortest neg d dp prec fmt) tok
unfolding format_digits
format_digits-NumberText shortest neg d dp prec fmt h short (inl (inl e)) =
    rw e (Tok.double, fmt_e-NumberText neg d dp prec b'e' h short (inl refl))
format_digits-NumberText shortest neg d dp prec fmt h short (inl (inr e)) =
    rw e (Tok.double, fmt_e-NumberText neg d dp prec b'E' h short (inr refl))
format_digits-NumberText shortest neg d dp prec fmt h short (inr (inl e)) =
    rw e (fmt_f-NumberText neg d dp prec h)
format_digits-NumberText shortest neg d dp prec fmt h short (inr (inr (inl e))) =
    rw e (fmt_g-NumberText shortest neg d dp prec b'g' h short (inl refl))
format_digits-NumberText shortest neg d dp prec fmt h short (inr (inr (inr e))) =
    rw e (fmt_g-NumberText shortest neg d dp prec b'G' h short (inr refl))

-- What formatDigits writes in one of the formats e, E, f, g and G and with any precision, of digits
-- that do not start with a zero and whose exponent has three digits at most, is read by lexNumber up to
-- a byte behind it that cannot go on a number, the reader's limit being the length of its slice: it
-- returns the token of a double where the text has a point or an exponent and of an integer where it
-- has neither, adds the text to the output, and stands behind it.
pub lex_number-format_digits :
    (shortest neg : Bool) (d : Bytes) (dp prec : ℤ) (fmt : ℕ) (l : FfLexer) (t : ℕ) (rest : Bytes)
    → IsDecimal d dp
    → IsShort (moved dp 0 1)
    → IsNumberFormat fmt
    → Whole l
    → IsEnd t
    → drop l.reader.i l.reader.s ≡ format_digits shortest neg d dp prec fmt ++ t ∷ rest
    → lex_number l ≡ (
      val (token_of (format_digits shortest neg d dp prec fmt)),
      record (lexer_moved l (l.reader.i + length (format_digits shortest neg d dp prec fmt))) {
        output = l.output ++ format_digits shortest neg d dp prec fmt;
      },
    )
lex_number-format_digits shortest neg d dp prec fmt l t rest h short format whole end at =
    let (tok, number) = format_digits-NumberText shortest neg d dp prec fmt h short format in
    rw (NumberText-token_of _ tok number) (lex_number-NumberText l t rest whole number end at)
