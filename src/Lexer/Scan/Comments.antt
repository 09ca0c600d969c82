-- ===== src/Lexer/Scan/Comments.antt =====
-- fflib/v1/lexer.go: block comments in `lexComment`.
use ffjson.Lexer.{FfLexer, Tok, LexErr, Flow, M, val, ret, continue}
use ffjson.Lexer.Moves.{moved, Whole, read_byte-drop}
use ffjson.Lexer.Scan.{lex_comment, comment_kind, block_comment, close_comment}
use mathlib.Core.List.{cons-ne-nil}
use ffjson.Prelude.{
  ℕ, zero, suc, ◌+◌, ◌<◌, ◌≡◌, ◌≢◌, refl, ap, ◌∙◌, true, false, [], ◌∷◌, ◌++◌, Bytes, length, drop,
  drop_next, ◌==◌, if◌then◌else◌, length-append, length-drop, ne→==, Bool, Bool-cases, inl, inr,
  arith,
}

-- Bytes without a star.
pub data NoStar : Bytes → Type 0 where
  no_byte : NoStar []
  one_byte : {c : ℕ} {cs : Bytes} → c ≢ b'*' → NoStar cs → NoStar (c ∷ cs)

-- What a star with `c` behind it makes of a block comment.
abbrev pub at_star : FfLexer → ℕ → Flow Tok × FfLexer
at_star l c =
    if c == b'/'
    then (val Tok.comment, l)
    else (ret Tok.error, record l { error = LexErr.incomplete_comment })

-- Behind a byte of the comment: whether it is a star.
abbrev go_on : ℕ → Bool → M Tok
go_on fuel t = elim t [ true ↦ close_comment | false ↦ block_comment fuel ]

module _ (l : FfLexer) (whole : Whole l) where
  close_comment_at :
      (n c : ℕ) (rest : Bytes)
      → drop n l.reader.s ≡ c ∷ rest
      → close_comment (moved l n) ≡ at_star (moved l (n + 1)) c
  unfolding close_comment
  close_comment_at n c rest at =
      rw (read_byte-drop l n (c ∷ rest) whole at (cons-ne-nil _ _))
        (elim (Bool-cases (c == b'/')) [ inl slash ↦ rw slash refl | inr other ↦ rw other refl ])

  block_comment-NoStar :
      {body : Bytes} (fuel n c : ℕ) (rest : Bytes)
      → NoStar body
      → length body < fuel
      → drop n l.reader.s ≡ body ++ b'*' ∷ c ∷ rest
      → block_comment fuel (moved l n) ≡ at_star (moved l (n + length body + 2)) c
  unfolding block_comment
  block_comment-NoStar zero n c rest free enough at = absurd (omega arith)
  block_comment-NoStar (suc fuel) n c rest NoStar.no_byte enough at =
      let e : n + 1 + 1 ≡ n + 0 + 2 = omega arith in
      rw (block_comment, read_byte-drop l n (b'*' ∷ c ∷ rest) whole at (cons-ne-nil _ _))
        (close_comment_at (n + 1) c rest (drop_next l.reader.s n at)
          ∙ ap (λ k. at_star (moved l k) c) e)
  block_comment-NoStar {body = b ∷ body} (suc fuel) n c rest (NoStar.one_byte other free) enough
        at =
      let e : n + 1 + length body + 2 ≡ n + suc (length body) + 2 = omega arith in
      rw
        (block_comment, read_byte-drop l n (b ∷ body ++ b'*' ∷ c ∷ rest) whole at (cons-ne-nil _ _))
        (ap (λ (t : Bool). go_on fuel t (moved l (n + 1))) (ne→== b b'*' other)
          ∙ block_comment-NoStar fuel (n + 1) c rest free (omega arith) (drop_next l.reader.s n at)
          ∙ ap (λ k. at_star (moved l k) c) e)

-- `lexComment` behind the slash of a block comment, the reader's limit being the length of its slice:
-- at the first star of the text, whatever the byte behind it, the comment ends. It is a comment if that
-- byte is a slash, and the error of an incomplete comment otherwise, also where a star and a slash
-- follow later.
pub lex_comment-NoStar :
    {body : Bytes} (l : FfLexer) (c : ℕ) (rest : Bytes)
    → Whole l
    → NoStar body
    → drop l.reader.i l.reader.s ≡ b'*' ∷ (body ++ b'*' ∷ c ∷ rest)
    → lex_comment l ≡ at_star (moved l (l.reader.i + 1 + length body + 2)) c
unfolding lex_comment comment_kind
lex_comment-NoStar {body} l c rest whole free at =
    ap (continue comment_kind)
      (read_byte-drop l l.reader.i (b'*' ∷ (body ++ b'*' ∷ c ∷ rest)) whole at (cons-ne-nil _ _))
    ∙ block_comment-NoStar l whole (suc (length l.reader.s)) (l.reader.i + 1) c rest free enough
        (drop_next l.reader.s l.reader.i at)
  where
    enough : length body < suc (length l.reader.s)
    enough = omega (
      arith,
      ap length at,
      length-append body (b'*' ∷ c ∷ rest),
      length-drop l.reader.i l.reader.s,
    )
