-- ===== src/Lexer/Number/Complete.antt =====
-- fflib/v1/lexer.go: `lexNumber` at a number of the grammar.
use ffjson.Lexer.{FfLexer, Tok, val, continue}
use ffjson.Lexer.Moves.{
  moved, head, Whole, read_byte-drop, unread_byte-moved, append-ne_nil, write_from-text,
}
use ffjson.Lexer.Number.{is_digit, number_from, number_end, lex_number}
use ffjson.Lexer.Number.Grammar.{Sign, IntPart, Fraction, Exponent, IsEnd, NumberText}
use ffjson.Lexer.Number.Stages.{minus-Sign, int_part-IntPart, fraction-Fraction, exponent-Exponent}
use mathlib.Core.List.{cons-ne-nil}
use ffjson.Prelude.{
  ℕ, ◌+◌, ◌≤◌, ◌≡◌, ◌≢◌, refl, ap, sym, ◌∙◌, false, [], ◌∷◌, ◌++◌, append_assoc, Bytes, length,
  drop, drop-append, length-append, length-drop, arith,
}

IntPart-head : {int : Bytes} (tail : Bytes) → IntPart int → head (int ++ tail) ≢ b'-'
IntPart-head tail IntPart.lone_zero = ground arith
IntPart-head {int = d ∷ ds} tail (IntPart.nonzero first digits) = ground arith

IntPart-ne_nil : {int : Bytes} (tail : Bytes) → IntPart int → int ++ tail ≢ []
IntPart-ne_nil tail IntPart.lone_zero = cons-ne-nil _ _
IntPart-ne_nil {int = d ∷ ds} tail (IntPart.nonzero first digits) = cons-ne-nil _ _

Exponent-head :
    {exp : Bytes} {tok tok' : Tok} (tail : Bytes)
    → Exponent exp tok tok'
    → IsEnd (head tail)
    → (is_digit (head (exp ++ tail)) ≡ false) × (head (exp ++ tail) ≢ b'.')
Exponent-head tail Exponent.plain e = (e.not_digit, e.not_point)
Exponent-head tail (Exponent.power {e} is_e digit digits) end = (ground arith, ground arith)
Exponent-head tail (Exponent.signed {e} is_e sign digit digits) end = (ground arith, ground arith)

Fraction-head :
    {fr : Bytes} {tok : Tok} (tail : Bytes)
    → Fraction fr tok
    → is_digit (head tail) ≡ false
    → is_digit (head (fr ++ tail)) ≡ false
Fraction-head tail Fraction.whole h = h
Fraction-head tail (Fraction.point digit digits) h = refl

regroup :
    (sg int fr ex tail : Bytes)
    → (sg ++ (int ++ (fr ++ ex))) ++ tail ≡ sg ++ (int ++ (fr ++ (ex ++ tail)))
regroup sg int fr ex tail =
    rw
      (
        append_assoc sg (int ++ (fr ++ ex)) tail,
        append_assoc int (fr ++ ex) tail,
        append_assoc fr ex tail,
      )
      refl

lengths :
    (sg int fr ex : Bytes)
    → length (sg ++ (int ++ (fr ++ ex))) ≡ length sg + length int + length fr + length ex
lengths sg int fr ex =
    omega (
      arith,
      length-append sg (int ++ (fr ++ ex)),
      length-append int (fr ++ ex),
      length-append fr ex,
    )

-- The stages one behind the other, up to the byte behind the number.
number_from-parts :
    {sg int fr ex : Bytes} {tok tok' : Tok} (l : FfLexer) (m : ℕ) (tail : Bytes)
    → Whole l
    → Sign sg
    → IntPart int
    → Fraction fr tok
    → Exponent ex tok tok'
    → tail ≢ []
    → IsEnd (head tail)
    → drop m l.reader.s ≡ sg ++ (int ++ (fr ++ (ex ++ tail)))
    → number_from m (head (sg ++ (int ++ (fr ++ (ex ++ tail))))) (moved l (m + 1))
      ≡ number_end m
          (head tail, tok')
          (moved l (m + length sg + length int + length fr + length ex + 1))
unfolding number_from
number_from-parts {sg} {int} {fr} {ex} l m tail whole sign_k int_k frac_k exp_k ne end at =
    let at2 = drop-append l.reader.s sg m at in
    let at3 = drop-append l.reader.s int (m + length sg) at2 in
    let at4 = drop-append l.reader.s fr (m + length sg + length int) at3 in
    let ne4 = append-ne_nil ex tail ne in
    let (no_digit, no_point) = Exponent-head tail exp_k end in
    rw
      (
        minus-Sign l whole m (int ++ (fr ++ (ex ++ tail))) sign_k (IntPart-ne_nil _ int_k)
            (IntPart-head _ int_k) at,
        int_part-IntPart l whole (m + length sg) (fr ++ (ex ++ tail)) int_k
            (append-ne_nil fr (ex ++ tail) ne4) (Fraction-head (ex ++ tail) frac_k no_digit) at2,
        fraction-Fraction l whole (m + length sg + length int) (ex ++ tail) frac_k ne4 no_digit
            no_point at3,
        exponent-Exponent l whole (m + length sg + length int + length fr) tail exp_k ne
            end.not_digit end.not_exp at4,
      )
      refl

number_from-NumberText :
    {text : Bytes} {tok : Tok} (l : FfLexer) (m : ℕ) (tail : Bytes)
    → Whole l
    → NumberText text tok
    → tail ≢ []
    → IsEnd (head tail)
    → drop m l.reader.s ≡ text ++ tail
    → number_from m (head (text ++ tail)) (moved l (m + 1))
      ≡ number_end m (head tail, tok) (moved l (m + length text + 1))
number_from-NumberText {text} {tok} l m tail whole k ne end at =
    let together = ap (λ t. t ++ tail) k.text_eq ∙ regroup k.sign k.int k.frac k.exp tail in
    let size : m + length k.sign + length k.int + length k.frac + length k.exp + 1
        ≡ m + length text + 1 =
      omega (arith, ap length k.text_eq, lengths k.sign k.int k.frac k.exp) in
    ap (λ t. number_from m (head t) (moved l (m + 1))) together
    ∙ number_from-parts l m tail whole k.sign_ok k.int_ok k.frac_ok k.exp_ok ne end (at ∙ together)
    ∙ ap (λ n. number_end m (head tail, tok) (moved l n)) size

NumberText-ne_nil : {text : Bytes} {tok : Tok} → NumberText text tok → text ≢ []
NumberText-ne_nil k =
    λ empty. append-ne_nil k.sign _ (IntPart-ne_nil _ k.int_ok) (sym k.text_eq ∙ empty)

-- `lexNumber` at a number of JSON's grammar and a byte behind it that cannot go on the number, the
-- reader's limit being the length of its slice: the token is an integer or a double as the grammar
-- says, the text of the number is added to the output, and the reader stands behind the number.
pub lex_number-NumberText :
    {text : Bytes} {tok : Tok} (l : FfLexer) (t : ℕ) (rest : Bytes)
    → Whole l
    → NumberText text tok
    → IsEnd t
    → drop l.reader.i l.reader.s ≡ text ++ t ∷ rest
    → lex_number l
      ≡ (val tok, record (moved l (l.reader.i + length text)) { output = l.output ++ text })
unfolding lex_number number_end
lex_number-NumberText {text} {tok} l t rest whole k end at =
    let m = l.reader.i in
    let ne = append-ne_nil text (t ∷ rest) (cons-ne-nil t rest) in
    ap (continue (number_from m)) (read_byte-drop l m (text ++ t ∷ rest) whole at ne)
    ∙ number_from-NumberText l m (t ∷ rest) whole k (cons-ne-nil t rest) end at
    ∙ rw
        (unread_byte-moved l (m + length text), write_from-text l m text (t ∷ rest) whole inside at)
        refl
  where
    inside : l.reader.i ≤ length l.reader.s
    inside =
        omega
          (arith, ap length at, length-append text (t ∷ rest), length-drop l.reader.i l.reader.s)
