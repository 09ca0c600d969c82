-- ===== src/Lexer/Number/Stages.antt =====
-- fflib/v1/lexer.go: the stages of `lexNumber` at a part of a number of the grammar. A stage starts
-- with the byte it looks at already read.
use ffjson.Lexer.{FfLexer, Tok, Flow, val, continue, read_byte}
use ffjson.Lexer.Moves.{moved, head, Whole, read_byte-drop, append-ne_nil}
use ffjson.Lexer.Number
use ffjson.Lexer.Number.{
  is_digit, digits_loop, read_digits, int_part, fraction, fraction_end, exponent, exponent_sign,
  exponent_end, number_from, number_end, lex_number,
}
use ffjson.Lexer.Number.Grammar.{Digits, Sign, IntPart, Fraction, Exponent, IsE, IsSign}
use mathlib.Core.List.{cons-ne-nil}
use ffjson.Prelude.{
  ℕ, zero, suc, ◌+◌, ◌<◌, ◌≡◌, ◌≢◌, refl, ap, ◌∙◌, true, false, ◌||◌, [], ◌∷◌, ◌++◌, Bytes, length,
  drop, drop_next, ◌==◌, length-append, length-drop, ne→==, arith,
}

-- A value is left, with the reader at position `n`.
abbrev pub left : {A : Type 0} → A → FfLexer → ℕ → Flow A × FfLexer
left a l n = (val a, moved l n)

pub reached :
    {A : Type 0} (l : FfLexer) {a a' : A} {n n' : ℕ} → a ≡ a' → n ≡ n' → left a l n ≡ left a' l n'
reached l {a'} {n} same there = ap (λ a. left a l n) same ∙ ap (left a' l) there

module _ (l : FfLexer) (whole : Whole l) where
  -- The byte behind one that is known.
  behind :
      (m : ℕ) (x : ℕ) (xs : Bytes)
      → drop m l.reader.s ≡ x ∷ xs
      → xs ≢ []
      → read_byte (moved l (m + 1)) ≡ (val (head xs), moved l (m + 1 + 1))
  behind m x xs at ne = read_byte-drop l (m + 1) xs whole (drop_next l.reader.s m at) ne

  digits_loop-Digits :
      {ds : Bytes} (fuel k m : ℕ) (tail : Bytes)
      → Digits ds
      → tail ≢ []
      → is_digit (head tail) ≡ false
      → length ds < fuel
      → drop m l.reader.s ≡ ds ++ tail
      → digits_loop fuel (head (ds ++ tail)) k (moved l (m + 1))
        ≡ (val (head tail, k + length ds), moved l (m + length ds + 1))
  unfolding digits_loop
  digits_loop-Digits zero k m tail digits ne other enough at = absurd (omega arith)
  digits_loop-Digits (suc fuel) k m tail Digits.no_digit ne other enough at =
      let a : k + 0 ≡ k = omega arith in
      let b : m + 0 ≡ m = omega arith in rw (digits_loop, other, a, b) refl
  digits_loop-Digits {ds = d ∷ ds} (suc fuel) k m tail (Digits.one_digit digit digits) ne other
        enough at =
      rw (digits_loop, digit, behind m d (ds ++ tail) at (append-ne_nil ds tail ne))
        (digits_loop-Digits fuel (k + 1) (m + 1) tail digits ne other (omega arith)
            (drop_next l.reader.s m at)
          ∙ reached l (ap (λ k. (head tail, k)) (omega arith)) (omega arith))

  read_digits-Digits :
      {ds : Bytes} (m : ℕ) (tail : Bytes)
      → Digits ds
      → tail ≢ []
      → is_digit (head tail) ≡ false
      → drop m l.reader.s ≡ ds ++ tail
      → read_digits (head (ds ++ tail)) (moved l (m + 1))
        ≡ (val (head tail, length ds), moved l (m + length ds + 1))
  unfolding read_digits
  read_digits-Digits {ds} m tail digits ne other at =
      digits_loop-Digits (suc (length l.reader.s)) 0 m tail digits ne other enough at
      ∙ reached l (ap (λ k. (head tail, k)) (omega arith)) refl
    where
      enough : length ds < suc (length l.reader.s)
      enough = omega (arith, ap length at, length-append ds tail, length-drop m l.reader.s)

  pub minus-Sign :
      {sg : Bytes} (m : ℕ) (tail : Bytes)
      → Sign sg
      → tail ≢ []
      → head tail ≢ b'-'
      → drop m l.reader.s ≡ sg ++ tail
      → Number.minus (head (sg ++ tail)) (moved l (m + 1))
        ≡ (val (head tail), moved l (m + length sg + 1))
  unfolding Number.minus
  minus-Sign m tail Sign.unsigned ne other at =
      let a : m + 0 ≡ m = omega arith in rw (ne→== (head tail) b'-' other, a) refl
  minus-Sign m tail Sign.minus ne other at = behind m b'-' tail at ne

  pub int_part-IntPart :
      {int : Bytes} (m : ℕ) (tail : Bytes)
      → IntPart int
      → tail ≢ []
      → is_digit (head tail) ≡ false
      → drop m l.reader.s ≡ int ++ tail
      → int_part (head (int ++ tail)) (moved l (m + 1))
        ≡ (val (head tail), moved l (m + length int + 1))
  unfolding int_part
  int_part-IntPart m tail IntPart.lone_zero ne other at = behind m b'0' tail at ne
  int_part-IntPart {int = d ∷ ds} m tail (IntPart.nonzero first digits) ne other at =
      let digit : is_digit d ≡ true = ground arith in
      let other_than_zero : (d == b'0') ≡ false = ground arith in
      rw (other_than_zero, first)
        (ap (continue (λ (c, num_read). Number.pure c))
          (read_digits-Digits m tail (Digits.one_digit digit digits) ne other at))

  fraction_end-digits :
      (tail : Bytes) (k n : ℕ)
      → fraction_end (head tail, suc k) (moved l n) ≡ left (head tail, Tok.double) l n
  unfolding fraction_end
  fraction_end-digits tail k n = rw (ne→== (suc k) 0 (omega arith)) refl

  exponent_end-digits :
      (tail : Bytes) (k n : ℕ)
      → exponent_end (head tail, suc k) (moved l n) ≡ left (head tail, Tok.double) l n
  unfolding exponent_end
  exponent_end-digits tail k n = rw (ne→== (suc k) 0 (omega arith)) refl

  pub fraction-Fraction :
      {fr : Bytes} {tok : Tok} (m : ℕ) (tail : Bytes)
      → Fraction fr tok
      → tail ≢ []
      → is_digit (head tail) ≡ false
      → head tail ≢ b'.'
      → drop m l.reader.s ≡ fr ++ tail
      → fraction (head (fr ++ tail)) (moved l (m + 1)) ≡ left (head tail, tok) l (m + length fr + 1)
  unfolding fraction
  fraction-Fraction m tail Fraction.whole ne other no_point at =
      let a : m + 0 ≡ m = omega arith in rw (ne→== (head tail) b'.' no_point, a) refl
  fraction-Fraction {fr = p ∷ d ∷ ds} m tail (Fraction.point digit digits) ne other no_point at =
      rw
        (
          behind m b'.' (d ∷ ds ++ tail) at (cons-ne-nil _ _),
          read_digits-Digits (m + 1) tail (Digits.one_digit digit digits) ne other
              (drop_next l.reader.s m at),
        )
        (fraction_end-digits tail (length ds) (m + 1 + suc (length ds) + 1)
          ∙ reached l refl (omega arith))

  -- The digits of an exponent and what follows them.
  power_digits :
      {d : ℕ} {ds : Bytes} (m n : ℕ) (tail : Bytes)
      → is_digit d ≡ true
      → Digits ds
      → tail ≢ []
      → is_digit (head tail) ≡ false
      → drop m l.reader.s ≡ d ∷ ds ++ tail
      → m + suc (length ds) + 1 ≡ n
      → continue exponent_end (read_digits d (moved l (m + 1))) ≡ left (head tail, Tok.double) l n
  power_digits {ds} m n tail digit digits ne other at there =
      ap (continue exponent_end)
        (read_digits-Digits m tail (Digits.one_digit digit digits) ne other at)
      ∙ exponent_end-digits tail (length ds) (m + suc (length ds) + 1)
      ∙ reached l refl there

  IsE-test : (e : ℕ) → IsE e → (e == b'e' || e == b'E') ≡ true
  IsE-test e h = ground arith

  IsSign-test : (c : ℕ) → IsSign c → (c == b'+' || c == b'-') ≡ true
  IsSign-test c h = ground arith

  digit-IsSign : (d : ℕ) → is_digit d ≡ true → (d == b'+' || d == b'-') ≡ false
  digit-IsSign d h = ground arith

  pub exponent-Exponent :
      {exp : Bytes} {tok tok' : Tok} (m : ℕ) (tail : Bytes)
      → Exponent exp tok tok'
      → tail ≢ []
      → is_digit (head tail) ≡ false
      → (head tail == b'e' || head tail == b'E') ≡ false
      → drop m l.reader.s ≡ exp ++ tail
      → exponent (head (exp ++ tail), tok) (moved l (m + 1))
        ≡ left (head tail, tok') l (m + length exp + 1)
  unfolding exponent exponent_sign
  exponent-Exponent m tail Exponent.plain ne other no_e at =
      let a : m + 0 ≡ m = omega arith in rw (no_e, a) refl
  exponent-Exponent {exp = e ∷ d ∷ ds} m tail (Exponent.power is_e digit digits) ne other no_e at =
      rw (IsE-test e is_e, behind m e (d ∷ ds ++ tail) at (cons-ne-nil _ _), digit-IsSign d digit)
        (power_digits (m + 1) _ tail digit digits ne other (drop_next l.reader.s m at)
          (omega arith))
  exponent-Exponent {exp = e ∷ c ∷ d ∷ ds} m tail (Exponent.signed is_e sign digit digits) ne other
        no_e at =
      rw
        (
          IsE-test e is_e,
          behind m e (c ∷ d ∷ ds ++ tail) at (cons-ne-nil _ _),
          IsSign-test c sign,
          behind (m + 1) c (d ∷ ds ++ tail) (drop_next l.reader.s m at) (cons-ne-nil _ _),
        )
        (power_digits (m + 1 + 1) _ tail digit digits ne other
          (drop_next l.reader.s (m + 1) (drop_next l.reader.s m at)) (omega arith))
