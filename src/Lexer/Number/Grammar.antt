-- ===== src/Lexer/Number/Grammar.antt =====
-- The numbers of JSON, said by a grammar.
use ffjson.Lexer.{Tok}
use ffjson.Lexer.Number.{is_digit}
use ffjson.Prelude.{ℕ, ◌≡◌, ◌≢◌, ◌⊎◌, true, false, ◌||◌, ◌==◌, [], ◌∷◌, ◌++◌, between, Bytes}

pub data Digits : Bytes → Type 0 where
  no_digit : Digits []
  one_digit : {d : ℕ} {ds : Bytes} → is_digit d ≡ true → Digits ds → Digits (d ∷ ds)

pub data Sign : Bytes → Type 0 where
  unsigned : Sign []
  minus : Sign (b'-' ∷ [])

-- A zero, or digits that do not start with one.
pub data IntPart : Bytes → Type 0 where
  lone_zero : IntPart (b'0' ∷ [])
  nonzero : {d : ℕ} {ds : Bytes} → between b'1' b'9' d ≡ true → Digits ds → IntPart (d ∷ ds)

-- The fraction, and the token of a number that has this fraction and no exponent.
pub data Fraction : Bytes → Tok → Type 0 where
  whole : Fraction [] Tok.integer
  point : {d : ℕ} {ds : Bytes} → is_digit d ≡ true → Digits ds → Fraction (b'.' ∷ d ∷ ds) Tok.double

abbrev pub IsE : ℕ → Type 0
IsE e = (e ≡ b'e') ⊎ (e ≡ b'E')

abbrev pub IsSign : ℕ → Type 0
IsSign c = (c ≡ b'+') ⊎ (c ≡ b'-')

-- The exponent, and what it makes of the token.
pub data Exponent : Bytes → Tok → Tok → Type 0 where
  plain : {tok : Tok} → Exponent [] tok tok
  power :
      {e d : ℕ} {ds : Bytes} {tok : Tok}
      → IsE e
      → is_digit d ≡ true
      → Digits ds
      → Exponent (e ∷ d ∷ ds) tok Tok.double
  signed :
      {e c d : ℕ} {ds : Bytes} {tok : Tok}
      → IsE e
      → IsSign c
      → is_digit d ≡ true
      → Digits ds
      → Exponent (e ∷ c ∷ d ∷ ds) tok Tok.double

-- `NumberText text tok`: a number and the token that it is.
pub record NumberText (text : Bytes) (tok : Tok) : Type 0 where
  pub sign : Bytes
  pub int : Bytes
  pub frac : Bytes
  pub exp : Bytes
  pub frac_tok : Tok
  pub text_eq : text ≡ sign ++ (int ++ (frac ++ exp))
  pub sign_ok : Sign sign
  pub int_ok : IntPart int
  pub frac_ok : Fraction frac frac_tok
  pub exp_ok : Exponent exp frac_tok tok

-- A byte that cannot go on a number.
pub record IsEnd (c : ℕ) : Type 0 where
  pub not_digit : is_digit c ≡ false
  pub not_point : c ≢ b'.'
  pub not_exp : (c == b'e' || c == b'E') ≡ false
