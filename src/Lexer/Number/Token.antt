-- ===== src/Lexer/Number/Token.antt =====
-- The token that a number is, by its text alone: a double where there is a point or an exponent.
use ffjson.Lexer.Number.Grammar.{
  Digits, one_digit, Sign, unsigned, minus, IntPart, lone_zero, nonzero, Fraction, whole, point,
  Exponent, plain, power, signed, NumberText, IsE,
}
use ffjson.Lexer.Number.{is_digit}
use ffjson.Lexer.{Tok}
use ffjson.Prelude.{
  ℕ, ◌≡◌, ◌∙◌, refl, ap, Bool, true, false, ◌||◌, ◌==◌, [], ◌∷◌, ◌++◌, if◌then◌else◌, Bytes,
  between, arith,
}

-- A byte that only a number with a fraction or an exponent has.
abbrev is_fractional : ℕ → Bool
is_fractional c = c == b'.' || (c == b'e' || c == b'E')

unfoldable pub token_of : Bytes → Tok
token_of [] = Tok.integer
token_of (c ∷ t) = if is_fractional c then Tok.double else token_of t

digit-plain : (c : ℕ) → is_digit c ≡ true → is_fractional c ≡ false
digit-plain c h = ground (arith, h)

nonzero-plain : (c : ℕ) → between b'1' b'9' c ≡ true → is_fractional c ≡ false
nonzero-plain c h = ground (arith, h)

token_of-Digits : (s t : Bytes) → Digits s → token_of (s ++ t) ≡ token_of t
unfolding token_of
token_of-Digits [] t h = refl
token_of-Digits (c ∷ s) t (one_digit d h) = rw (digit-plain c d) (token_of-Digits s t h)

token_of-Sign : (s t : Bytes) → Sign s → token_of (s ++ t) ≡ token_of t
unfolding token_of
token_of-Sign [] t unsigned = refl
token_of-Sign (c ∷ []) t minus = refl
token_of-Sign (c ∷ (_ ∷ _)) t h = elim h [ ]

token_of-IntPart : (s t : Bytes) → IntPart s → token_of (s ++ t) ≡ token_of t
unfolding token_of
token_of-IntPart [] t h = elim h [ ]
token_of-IntPart (c ∷ []) t lone_zero = refl
token_of-IntPart (c ∷ s) t (nonzero d h) = rw (nonzero-plain c d) (token_of-Digits s t h)

e-fractional : (c : ℕ) → IsE c → is_fractional c ≡ true
e-fractional c h = ground (arith, h)

-- Behind the integer.
token_of-end :
    (frac exp : Bytes) (mid tok : Tok)
    → Fraction frac mid
    → Exponent exp mid tok
    → token_of (frac ++ exp) ≡ tok
unfolding token_of
token_of-end [] [] mid tok whole plain = refl
token_of-end [] (e ∷ exp) mid tok whole (power is_e d h) = rw (e-fractional e is_e) refl
token_of-end [] (e ∷ exp) mid tok whole (signed is_e is_sign d h) = rw (e-fractional e is_e) refl
token_of-end (c ∷ frac) [] mid tok (point d h) plain = refl
token_of-end (c ∷ frac) (e ∷ exp) mid tok (point d h) (power is_e d' h') = refl
token_of-end (c ∷ frac) (e ∷ exp) mid tok (point d h) (signed is_e is_sign d' h') = refl

pub NumberText-token_of : (text : Bytes) (tok : Tok) → NumberText text tok → token_of text ≡ tok
NumberText-token_of text tok n =
    ap token_of n.text_eq
    ∙ token_of-Sign n.sign (n.int ++ (n.frac ++ n.exp)) n.sign_ok
    ∙ token_of-IntPart n.int (n.frac ++ n.exp) n.int_ok
    ∙ token_of-end n.frac n.exp n.frac_tok tok n.frac_ok n.exp_ok
