-- ===== src/Lexer/Scan/Lexemes.antt =====
-- fflib/v1/lexer.go: `Scan` at a token of the grammar, without `captureAll`.
use ffjson.Lexer.{FfLexer, Tok, val, continue, want_bytes, want_loop, unread_byte, write, ◌>>◌}
use ffjson.Lexer.Moves.{moved, head, Whole, read_byte-drop, unread_byte-moved, write_from-text}
use ffjson.Lexer.Number.{lex_number}
use ffjson.Lexer.Number.Complete.{lex_number-NumberText}
use ffjson.Lexer.Number.Grammar.{Sign, IntPart, IsEnd, NumberText}
use ffjson.Lexer.Scan.{
  token_at, value_at, punctuation, echo, lex_string, plain_string, captured_string, is_number_start,
}
use ffjson.Reader.Strings.Complete.{slice_string-Decodes}
use ffjson.Reader.Strings.Decodes.{Decodes}
use ffjson.Reader.Strings.{slice_string}
use ffjson.Tables.{blank}
use mathlib.Core.List.{cons-ne-nil}
use ffjson.Prelude.{
  ℕ, suc, ◌+◌, ◌≤◌, ◌≡◌, refl, ap, ◌∙◌, Bool, true, false, [], ◌∷◌, ◌++◌, append_assoc, append-nil,
  Bytes, codes, length, drop, drop-lt, drop_next, ◌==◌, length-append, arith, if◌then◌else◌,
}

-- The six bytes that are a token by themselves.
pub data Punctuation : ℕ → Tok → Type 0 where
  open_object : Punctuation b'{' Tok.left_bracket
  close_object : Punctuation b'}' Tok.right_bracket
  open_array : Punctuation b'[' Tok.left_brace
  close_array : Punctuation b']' Tok.right_brace
  comma : Punctuation b',' Tok.comma
  colon : Punctuation b':' Tok.colon

-- `Lexeme text rest out tok`: the token `tok` is spelt `text` in front of `rest`, and `out` is what the
-- lexer keeps of it. Only a number needs a byte behind it.
pub data Lexeme : Bytes → Bytes → Bytes → Tok → Type 0 where
  punctuation_mark :
      {c : ℕ} {rest : Bytes} {tok : Tok} → Punctuation c tok → Lexeme (c ∷ []) rest [] tok
  true_word : {rest : Bytes} → Lexeme (codes "true") rest (codes "true") Tok.bool
  false_word : {rest : Bytes} → Lexeme (codes "false") rest (codes "false") Tok.bool
  null_word : {rest : Bytes} → Lexeme (codes "null") rest (codes "null") Tok.null
  quoted :
      {body d rest : Bytes} → Decodes body d → Lexeme (b'"' ∷ (body ++ b'"' ∷ [])) rest d Tok.string
  numeral :
      {text rest : Bytes} {t : ℕ} {tok : Tok}
      → NumberText text tok
      → IsEnd t
      → Lexeme text (t ∷ rest) text tok

-- What `Scan` does once the first byte of the token is read.
abbrev pub Lexes : FfLexer → Bytes → Bytes → Tok → Type 0
Lexes l text out tok =
    token_at (head text) (moved l (l.reader.i + 1))
    ≡ (val tok, record (moved l (l.reader.i + length text)) { output = l.output ++ out })

lex_string-plain :
    (l : FfLexer)
    → l.capture_all ≡ false
    → lex_string l ≡ plain_string l (slice_string l.reader l.output)
unfolding lex_string
lex_string-plain l plain =
    ap
      (λ (b : Bool).
        if b
        then captured_string l (slice_string l.reader [])
        else plain_string l (slice_string l.reader l.output))
      plain

want_loop-text :
    (l : FfLexer) (n : ℕ) (want rest : Bytes)
    → Whole l
    → drop n l.reader.s ≡ want ++ rest
    → want_loop want (moved l n) ≡ (val tt, moved l (n + length want))
unfolding want_loop
want_loop-text l n [] rest whole at = let e : n + 0 ≡ n = omega arith in rw e refl
want_loop-text l n (b ∷ want) rest whole at =
    let e : n + 1 + length want ≡ n + suc (length want) = omega arith in
    let same : (b == b) ≡ true = ground arith in
    rw (want_loop, read_byte-drop l n (b ∷ want ++ rest) whole at (cons-ne-nil _ _), same)
      (want_loop-text l (n + 1) want rest whole (drop_next l.reader.s n at) ∙ rw e refl)

want_bytes-text :
    (l : FfLexer) (n : ℕ) (want rest : Bytes) (tok : Tok)
    → Whole l
    → n ≤ length l.reader.s
    → drop n l.reader.s ≡ want ++ rest
    → want_bytes want tok (moved l n)
      ≡ (val tok, record (moved l (n + length want)) { output = l.output ++ want })
unfolding want_bytes
want_bytes-text l n want rest tok whole inside at =
    rw (want_loop-text l n want rest whole at, write_from-text l n want rest whole inside at) refl

NumberText-head :
    {text : Bytes} {tok : Tok}
    → NumberText text tok
    → (c : ℕ) × (t : Bytes) × (text ≡ c ∷ t) × (is_number_start c ≡ true)
NumberText-head k =
    let (c, t, body, start) = parts_head (k.frac ++ k.exp) k.sign_ok k.int_ok in
    (c, t, k.text_eq ∙ body, start)
  where
    parts_head :
        {sg int : Bytes} (tail : Bytes)
        → Sign sg
        → IntPart int
        → (c : ℕ) × (t : Bytes) × (sg ++ (int ++ tail) ≡ c ∷ t) × (is_number_start c ≡ true)
    parts_head tail Sign.minus int_k = (_, _, refl, refl)
    parts_head tail Sign.unsigned IntPart.lone_zero = (_, _, refl, refl)
    parts_head {int = d ∷ ds} tail Sign.unsigned (IntPart.nonzero first digits) =
        (d, ds ++ tail, refl, ground arith)

-- The first byte of a token is no blank.
pub Lexeme-head :
    {text rest out : Bytes} {tok : Tok}
    → Lexeme text rest out tok
    → (c : ℕ) × (t : Bytes) × (text ≡ c ∷ t) × (blank c ≡ false)
Lexeme-head (Lexeme.punctuation_mark Punctuation.open_object) = (_, _, refl, refl)
Lexeme-head (Lexeme.punctuation_mark Punctuation.close_object) = (_, _, refl, refl)
Lexeme-head (Lexeme.punctuation_mark Punctuation.open_array) = (_, _, refl, refl)
Lexeme-head (Lexeme.punctuation_mark Punctuation.close_array) = (_, _, refl, refl)
Lexeme-head (Lexeme.punctuation_mark Punctuation.comma) = (_, _, refl, refl)
Lexeme-head (Lexeme.punctuation_mark Punctuation.colon) = (_, _, refl, refl)
Lexeme-head Lexeme.true_word = (_, _, refl, refl)
Lexeme-head Lexeme.false_word = (_, _, refl, refl)
Lexeme-head Lexeme.null_word = (_, _, refl, refl)
Lexeme-head (Lexeme.quoted k) = (_, _, refl, refl)
Lexeme-head (Lexeme.numeral k end) =
    let (c, t, text, start) = NumberText-head k in (c, t, text, ground arith)

module _ (l : FfLexer) (plain : l.capture_all ≡ false) (whole : Whole l) where
  punctuation_lem : {c : ℕ} {tok : Tok} → Punctuation c tok → Lexes l (c ∷ []) [] tok
  unfolding token_at punctuation echo
  punctuation_lem Punctuation.open_object = rw (plain, append-nil l.output) refl
  punctuation_lem Punctuation.close_object = rw (plain, append-nil l.output) refl
  punctuation_lem Punctuation.open_array = rw (plain, append-nil l.output) refl
  punctuation_lem Punctuation.close_array = rw (plain, append-nil l.output) refl
  punctuation_lem Punctuation.comma = rw (plain, append-nil l.output) refl
  punctuation_lem Punctuation.colon = rw (plain, append-nil l.output) refl

  token_at-number :
      (c : ℕ)
      → is_number_start c ≡ true
      → (m : FfLexer) → token_at c m ≡ continue (λ u. lex_number) (unread_byte m)
  unfolding token_at value_at
  token_at-number c start m = ground arith

  numeral_lem :
      {text : Bytes} {t : ℕ} {tok : Tok} (rest : Bytes)
      → NumberText text tok
      → IsEnd t
      → drop l.reader.i l.reader.s ≡ text ++ t ∷ rest
      → is_number_start (head text) ≡ true
      → Lexes l text text tok
  numeral_lem {text} {t} rest k end at start =
      token_at-number (head text) start (moved l (l.reader.i + 1))
      ∙ ap (continue (λ u. lex_number)) (unread_byte-moved l l.reader.i)
      ∙ lex_number-NumberText l t rest whole k end at

  quoted_lem :
      {body d : Bytes} (rest : Bytes)
      → Decodes body d
      → drop l.reader.i l.reader.s ≡ b'"' ∷ ((body ++ b'"' ∷ []) ++ rest)
      → Lexes l (b'"' ∷ (body ++ b'"' ∷ [])) d Tok.string
  unfolding token_at value_at lex_string plain_string
  quoted_lem {body} rest k at =
      let inside = drop_next l.reader.s l.reader.i at ∙ append_assoc body (b'"' ∷ []) rest in
      let size : l.reader.i + 1 + length body + 1 ≡ l.reader.i + suc (length (body ++ b'"' ∷ [])) =
        omega (arith, length-append body (b'"' ∷ [])) in
      lex_string-plain (moved l (l.reader.i + 1)) plain
      ∙ ap (plain_string (moved l (l.reader.i + 1)))
          (slice_string-Decodes (moved l (l.reader.i + 1)).reader rest l.output whole k inside)
      ∙ rw size refl

  word_lem :
      (c : ℕ) (want rest : Bytes) (tok : Tok)
      → drop l.reader.i l.reader.s ≡ c ∷ want ++ rest
      → (write (c ∷ []) >> want_bytes want tok) (moved l (l.reader.i + 1)) ≡ (
        val tok,
        record (moved l (l.reader.i + suc (length want))) { output = l.output ++ c ∷ want },
      )
  word_lem c want rest tok at =
      let size : l.reader.i + 1 + length want ≡ l.reader.i + suc (length want) = omega arith in
      want_bytes-text (record l { output = l.output ++ c ∷ [] }) (l.reader.i + 1) want rest tok
        whole inside (drop_next l.reader.s l.reader.i at)
      ∙ rw (size, append_assoc l.output (c ∷ []) want) refl
    where
      inside : l.reader.i + 1 ≤ length l.reader.s
      inside = omega (arith, drop-lt l.reader.s l.reader.i at)

  pub token_at-Lexeme :
      {text rest out : Bytes} {tok : Tok}
      → Lexeme text rest out tok
      → drop l.reader.i l.reader.s ≡ text ++ rest
      → Lexes l text out tok
  unfolding token_at value_at
  token_at-Lexeme (Lexeme.punctuation_mark mark) at = punctuation_lem mark
  token_at-Lexeme {rest} Lexeme.true_word at = word_lem b't' (codes "rue") rest Tok.bool at
  token_at-Lexeme {rest} Lexeme.false_word at = word_lem b'f' (codes "alse") rest Tok.bool at
  token_at-Lexeme {rest} Lexeme.null_word at = word_lem b'n' (codes "ull") rest Tok.null at
  token_at-Lexeme {rest} (Lexeme.quoted k) at = quoted_lem rest k at
  token_at-Lexeme (Lexeme.numeral k end) at =
      let (c, t, text, start) = NumberText-head k in
      numeral_lem _ k end at (ap (λ s. is_number_start (head s)) text ∙ start)
