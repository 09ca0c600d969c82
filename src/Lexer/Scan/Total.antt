-- ===== src/Lexer/Scan/Total.antt =====
-- fflib/v1/lexer.go: `lexComment`, `lexString` and the switch of `Scan` on any input.
use ffjson.Lexer.{FfLexer, Tok, LexErr, ◌>>◌, pure, read_byte, unread_byte, write, want_bytes}
use ffjson.Lexer.Number.{lex_number}
use ffjson.Lexer.Number.Total.{lex_number-Steps}
use ffjson.Lexer.Scan.{
  line_comment, close_comment, block_comment, comment_kind, lex_comment, captured_string,
  plain_string, lex_string, echo, punctuation, is_number_start, value_at, token_at,
}
use ffjson.Lexer.Total.{
  Ends, Steps, Ends-from, Stays-from, Stays-then, Stays-whole, Steps-bind, Steps-then, Steps-if,
  Steps-elim, Ends-if, Steps-pure, Steps-fail, read_byte-Steps, unread_byte-Steps, want_bytes-Steps,
}
use ffjson.Outcome.{Fault, ok, err}
use ffjson.Reader.{Reader}
use ffjson.Reader.Strings.Bounds.{IsError, Stays}
use ffjson.Reader.Strings.Total.{Returns, slice_string-Returns}
use ffjson.Reader.Strings.{Written, slice_string}
use ffjson.Prelude.{
  ℕ, zero, suc, ◌+◌, ◌≤◌, ◌<◌, ◌≡◌, refl, ap, inl, arith, length, ◌==◌, Bytes, [], ◌∷◌, codes,
}

module _ (r : Reader) (whole : r.l ≡ length r.s) where
  line_comment-Steps :
      (fuel n : ℕ) → r.i ≤ n → r.l < n + fuel → Steps r n (suc n) (line_comment fuel)
  unfolding line_comment
  line_comment-Steps zero n le enough l h = absurd (omega (arith, h.low, h.high))
  line_comment-Steps (suc fuel) n le enough l h =
      Steps-bind r n (suc n) (suc n) read_byte _ (read_byte-Steps r whole n le)
        (λ c.
          Steps-elim r (suc n) (suc n) (pure Tok.comment) (line_comment fuel) (c == b'\n')
            (Steps-pure r (suc n) Tok.comment)
            (λ l' h'.
              Ends-from (suc (suc n)) (suc n) r (line_comment fuel l')
                (line_comment-Steps fuel (suc n) (omega arith) (omega arith) l' h') (omega arith)))
        l h

  close_comment-Steps : (n : ℕ) → r.i ≤ n → Steps r n n close_comment
  unfolding close_comment
  close_comment-Steps n le =
      Steps-bind r n (suc n) n read_byte _ (read_byte-Steps r whole n le) (λ c.
        Steps-if r (suc n) n _ _ (c == b'/')
          (λ e l h. Stays-from (suc n) n r l.reader h (omega arith))
          (λ e. Steps-fail r whole Tok (suc n) n LexErr.incomplete_comment (omega arith)))

  block_comment-Steps :
      (fuel n : ℕ) → r.i ≤ n → r.l < n + fuel → Steps r n (suc n) (block_comment fuel)
  unfolding block_comment
  block_comment-Steps zero n le enough l h = absurd (omega (arith, h.low, h.high))
  block_comment-Steps (suc fuel) n le enough l h =
      Steps-bind r n (suc n) (suc n) read_byte _ (read_byte-Steps r whole n le)
        (λ c.
          Steps-elim r (suc n) (suc n) close_comment (block_comment fuel) (c == b'*')
            (close_comment-Steps (suc n) (omega arith))
            (λ l' h'.
              Ends-from (suc (suc n)) (suc n) r (block_comment fuel l')
                (block_comment-Steps fuel (suc n) (omega arith) (omega arith) l' h') (omega arith)))
        l h

  comment_kind-Steps : (n c : ℕ) → r.i ≤ n → Steps r n n (comment_kind c)
  unfolding comment_kind
  comment_kind-Steps n c le l h =
      let enough : r.l < n + suc (length l.reader.s) = omega (arith, whole, ap length h.same_s) in
      let fuel = suc (length l.reader.s) in
      Ends-if r n _ _ (c == b'/')
        (Ends-from (suc n) n r (line_comment fuel l) (line_comment-Steps fuel n le enough l h)
          (omega arith))
        (Ends-if r n _ _ (c == b'*')
          (Ends-from (suc n) n r (block_comment fuel l) (block_comment-Steps fuel n le enough l h)
            (omega arith))
          (Steps-fail r whole Tok n n LexErr.incomplete_comment le l h))

  lex_comment-Steps : (n : ℕ) → r.i ≤ n → Steps r n (suc n) lex_comment
  unfolding lex_comment
  lex_comment-Steps n le =
      Steps-bind r n (suc n) (suc n) read_byte comment_kind (read_byte-Steps r whole n le)
        (λ c. comment_kind-Steps (suc n) c (omega arith))

  -- An error of `SliceString` is returned, whichever it is.
  captured_string-Ends :
      (n : ℕ) (l : FfLexer) (w : Written (Unit {0}))
      → r.i ≤ n
      → Stays n r l.reader
      → Returns l.reader.i l.reader w
      → Ends n r (captured_string l w)
  unfolding captured_string
  captured_string-Ends n l (ok u, r', b) le h s =
      Stays-from l.reader.i n r r' (Stays-then h s) h.low
  captured_string-Ends n l (err e, r', b) le h (is_error, s) = by_error e is_error
    where
      back : Stays r.i r r'
      back = Stays-from l.reader.i r.i r r' (Stays-then h s) (omega (arith, h.low))

      by_error : (e : Fault) → IsError e → Ends n r (captured_string l (err e, r', b))
      by_error Fault.panic not_so = elim not_so [ ]
      by_error Fault.eof _ = (inl refl, back)
      by_error (Fault.invalid_hex_char _ _) _ = (inl refl, back)
      by_error (Fault.invalid_number _) _ = (inl refl, back)
      by_error (Fault.invalid_unicode_surrogate _ _) _ = (inl refl, back)
      by_error (Fault.invalid_escaped_char _) _ = (inl refl, back)
      by_error (Fault.invalid_json_char _) _ = (inl refl, back)
      by_error Fault.no_fuel not_so = elim not_so [ ]

  plain_string-Ends :
      (n : ℕ) (l : FfLexer) (w : Written (Unit {0}))
      → r.i ≤ n
      → Stays n r l.reader
      → Returns l.reader.i l.reader w
      → Ends n r (plain_string l w)
  unfolding plain_string
  plain_string-Ends n l (ok u, r', b) le h s = Stays-from l.reader.i n r r' (Stays-then h s) h.low
  plain_string-Ends n l (err e, r', b) le h (is_error, s) = by_error e is_error
    where
      back : Stays r.i r r'
      back = Stays-from l.reader.i r.i r r' (Stays-then h s) (omega (arith, h.low))

      by_error : (e : Fault) → IsError e → Ends n r (plain_string l (err e, r', b))
      by_error Fault.panic not_so = elim not_so [ ]
      by_error Fault.eof _ = (inl refl, back)
      by_error (Fault.invalid_hex_char _ _) _ = (inl refl, back)
      by_error (Fault.invalid_number _) _ = (inl refl, back)
      by_error (Fault.invalid_unicode_surrogate _ _) _ = (inl refl, back)
      by_error (Fault.invalid_escaped_char _) _ = (inl refl, back)
      by_error (Fault.invalid_json_char _) _ = (inl refl, back)
      by_error Fault.no_fuel not_so = elim not_so [ ]

  lex_string-Steps : (n : ℕ) → r.i ≤ n → Steps r n n lex_string
  unfolding lex_string
  lex_string-Steps n le l h =
      let inside : l.reader.i ≤ l.reader.l = omega (arith, h.high, h.same_l) in
      let returns =
        λ (out : Bytes). slice_string-Returns l.reader out (Stays-whole whole h) inside in
      Ends-if r n _ _ l.capture_all
        (captured_string-Ends n l (slice_string l.reader []) le h (returns []))
        (plain_string-Ends n l (slice_string l.reader l.output) le h (returns l.output))

  pub echo-Steps : (n c : ℕ) → Steps r n n (echo c)
  unfolding echo
  echo-Steps n c l h = Ends-if r n (write (c ∷ []) l) (pure tt l) l.capture_all h h

  punctuation-Steps : (n c : ℕ) (t : Tok) → Steps r n n (punctuation c t)
  unfolding punctuation
  punctuation-Steps n c t = Steps-then r n n n (echo c) _ (echo-Steps n c) (Steps-pure r n t)

  literal-Steps :
      (n : ℕ) (bytes want : Bytes) (t : Tok)
      → r.i ≤ n
      → Steps r n n (write bytes >> want_bytes want t)
  literal-Steps n bytes want t le =
      Steps-then r n n n (write bytes) _ (λ l h. h) (want_bytes-Steps r whole n want t le)

  value_at-Steps : (n c : ℕ) → r.i ≤ n → Steps r (suc n) (suc n) (value_at c)
  unfolding value_at
  value_at-Steps n c le =
      let m = suc n in
      let later : r.i ≤ suc n = omega arith in
      Steps-if r m m _ _ (c == b't') (λ e. literal-Steps m (b't' ∷ []) (codes "rue") Tok.bool later)
        (λ e.
          Steps-if r m m _ _ (c == b'f')
            (λ e. literal-Steps m (b'f' ∷ []) (codes "alse") Tok.bool later)
            (λ e.
              Steps-if r m m _ _ (c == b'n')
                (λ e. literal-Steps m (b'n' ∷ []) (codes "ull") Tok.null later)
                (λ e.
                  Steps-if r m m _ _ (c == b'"') (λ e. lex_string-Steps m later)
                    (λ e.
                      Steps-if r m m _ _ (is_number_start c) (λ e. number n le)
                        (λ e.
                          Steps-if r m m _ _ (c == b'/')
                            (λ e l h.
                              Ends-from (suc m) m r (lex_comment l) (lex_comment-Steps m later l h)
                                (omega arith))
                            (λ e. Steps-fail r whole Tok m m LexErr.invalid_char later))))))
    where
      number : (n : ℕ) → r.i ≤ n → Steps r (suc n) (suc n) (unread_byte >> lex_number)
      number n le =
          Steps-then r (suc n) n (suc n) unread_byte lex_number (unread_byte-Steps r whole n)
            (λ l h.
              Ends-from (n + 1) (suc n) r (lex_number l) (lex_number-Steps r whole n le l h)
                (omega arith))

  pub token_at-Steps : (n c : ℕ) → r.i ≤ n → Steps r (suc n) (suc n) (token_at c)
  unfolding token_at
  token_at-Steps n c le =
      let m = suc n in
      let mark = λ (t : Tok). punctuation-Steps (suc n) c t in
      Steps-if r m m _ _ (c == b'{') (λ e. mark Tok.left_bracket)
        (λ e.
          Steps-if r m m _ _ (c == b'}') (λ e. mark Tok.right_bracket)
            (λ e.
              Steps-if r m m _ _ (c == b'[') (λ e. mark Tok.left_brace)
                (λ e.
                  Steps-if r m m _ _ (c == b']') (λ e. mark Tok.right_brace)
                    (λ e.
                      Steps-if r m m _ _ (c == b',') (λ e. mark Tok.comma)
                        (λ e.
                          Steps-if r m m _ _ (c == b':') (λ e. mark Tok.colon)
                            (λ e. value_at-Steps n c le))))))
