-- ===== src/Lexer/Number/Total.antt =====
-- fflib/v1/lexer.go: `lexNumber` on any input.
use ffjson.Lexer.{Tok, LexErr, ◌>>=◌, ◌>>◌, fail_with, read_byte, unread_byte, write_from}
use ffjson.Lexer.Number.{
  is_digit, digits_loop, read_digits, minus, int_part, fraction_end, fraction, exponent_sign,
  exponent_end, exponent, number_end, number_from, lex_number,
}
use ffjson.Lexer.Total.{
  Steps, Ends-from, Steps-bind, Steps-then, Steps-if, Steps-pure, Steps-fail, Steps-at,
  read_byte-Steps, unread_byte-Steps, write_from-Steps,
}
use ffjson.Reader.{Reader}
use ffjson.Prelude.{
  ℕ, zero, suc, ◌+◌, ◌≤◌, ◌<◌, ◌≡◌, ap, true, ◌||◌, inl, inr, arith, Bool-cases, length, between,
  ◌==◌,
}

module _ (r : Reader) (whole : r.l ≡ length r.s) where
  digits_loop-Steps :
      (fuel n c num_read : ℕ) → r.i ≤ n → r.l < n + fuel → Steps r n n (digits_loop fuel c num_read)
  unfolding digits_loop
  digits_loop-Steps zero n c num_read le enough l h = absurd (omega (arith, h.low, h.high))
  digits_loop-Steps (suc fuel) n c num_read le enough l h = elim (Bool-cases (is_digit c)) [
    | inl digit ↦
        rw (digits_loop, digit)
          (Steps-bind r n (suc n) n read_byte _ (read_byte-Steps r whole n le)
            (λ d l' h'.
              Ends-from (suc n) n r (digits_loop fuel d (num_read + 1) l')
                (digits_loop-Steps fuel (suc n) d (num_read + 1) (omega arith) (omega arith) l' h')
                (omega arith))
            l h)
    | inr other ↦ rw (digits_loop, other) h
  ]

  read_digits-Steps : (n c : ℕ) → r.i ≤ n → Steps r n n (read_digits c)
  unfolding read_digits
  read_digits-Steps n c le l h =
      digits_loop-Steps (suc (length l.reader.s)) n c 0 le
        (omega (arith, whole, ap length h.same_s)) l h

  -- At a digit it moves on.
  read_digits-moves : (n c : ℕ) → r.i ≤ n → is_digit c ≡ true → Steps r n (suc n) (read_digits c)
  unfolding read_digits digits_loop
  read_digits-moves n c le digit l h =
      rw (read_digits, digits_loop, digit)
        (Steps-bind r n (suc n) (suc n) read_byte _ (read_byte-Steps r whole n le)
          (λ d.
            digits_loop-Steps (length l.reader.s) (suc n) d 1 (omega arith)
              (omega (arith, whole, ap length h.same_s)))
          l h)

  pub read_from : (n : ℕ) → r.i ≤ n → Steps r n n read_byte
  read_from n le l h =
      Ends-from (suc n) n r (read_byte l) (read_byte-Steps r whole n le l h) (omega arith)

  minus-Steps : (n c : ℕ) → r.i ≤ n → Steps r n n (minus c)
  unfolding minus
  minus-Steps n c le = Steps-if r n n _ _ (c == b'-') (λ e. read_from n le) (λ e. Steps-pure r n c)

  unread_fail :
      (A : Type 0) (n k : ℕ) (e : LexErr)
      → r.i ≤ n
      → Steps r (suc n) k (unread_byte >> fail_with {A = A} e)
  unread_fail A n k e le =
      Steps-then r (suc n) n k unread_byte _ (unread_byte-Steps r whole n)
        (Steps-fail r whole A n k e le)

  int_part-Steps : (n c : ℕ) → r.i ≤ n → Steps r (suc n) (suc (suc n)) (int_part c)
  unfolding int_part
  int_part-Steps n c le =
      Steps-if r (suc n) (suc (suc n)) _ _ (c == b'0')
        (λ e. read_byte-Steps r whole (suc n) (omega arith))
        (λ e.
          Steps-if r (suc n) (suc (suc n)) _ _ (between b'1' b'9' c)
            (λ digit.
              Steps-bind r (suc n) (suc (suc n)) (suc (suc n)) (read_digits c) _
                (read_digits-moves (suc n) c (omega arith) (ground (arith, between)))
                (λ d. Steps-pure r (suc (suc n)) d.0))
            (λ other. unread_fail ℕ n (suc (suc n)) LexErr.missing_integer_after_minus le))

  fraction_end-Steps : (n : ℕ) (d : ℕ × ℕ) → r.i ≤ n → Steps r (suc n) (suc n) (fraction_end d)
  unfolding fraction_end
  fraction_end-Steps n (c, num_read) le =
      Steps-if r (suc n) (suc n) _ _ (num_read == 0)
        (λ e. unread_fail (ℕ × Tok) n (suc n) LexErr.missing_integer_after_decimal le)
        (λ e. Steps-pure {A = ℕ × Tok} r (suc n) (c, Tok.double))

  fraction-Steps : (n c : ℕ) → r.i ≤ n → Steps r (suc n) (suc n) (fraction c)
  unfolding fraction
  fraction-Steps n c le =
      Steps-if r (suc n) (suc n) _ _ (c == b'.')
        (λ e.
          Steps-bind r (suc n) (suc n) (suc n) _ fraction_end
            (Steps-bind r (suc n) (suc n) (suc n) read_byte read_digits
              (read_from (suc n) (omega arith)) (λ d. read_digits-Steps (suc n) d (omega arith)))
            (λ d. fraction_end-Steps n d le))
        (λ e. Steps-pure {A = ℕ × Tok} r (suc n) (c, Tok.integer))

  exponent_sign-Steps : (n c : ℕ) → r.i ≤ n → Steps r n n (exponent_sign c)
  unfolding exponent_sign
  exponent_sign-Steps n c le =
      Steps-if r n n _ _ (c == b'+' || c == b'-') (λ e. read_from n le) (λ e. Steps-pure r n c)

  exponent_end-Steps : (n : ℕ) (d : ℕ × ℕ) → r.i ≤ n → Steps r n n (exponent_end d)
  unfolding exponent_end
  exponent_end-Steps n (c, num_read) le =
      Steps-if r n n _ _ (num_read == 0)
        (λ e. Steps-fail r whole (ℕ × Tok) n n LexErr.missing_integer_after_exponent le)
        (λ e. Steps-pure {A = ℕ × Tok} r n (c, Tok.double))

  exponent-Steps : (n : ℕ) (d : ℕ × Tok) → r.i ≤ n → Steps r n n (exponent d)
  unfolding exponent
  exponent-Steps n (c, tok) le =
      Steps-if r n n _ _ (c == b'e' || c == b'E')
        (λ e.
          Steps-bind r n n n _ exponent_end
            (Steps-bind r n n n _ read_digits
              (Steps-bind r n n n read_byte exponent_sign (read_from n le)
                (λ c. exponent_sign-Steps n c le))
              (λ c. read_digits-Steps n c le))
            (λ d. exponent_end-Steps n d le))
        (λ e. Steps-pure {A = ℕ × Tok} r n (c, tok))

  number_end-Steps :
      (n start : ℕ) (d : ℕ × Tok) → start ≤ n → Steps r (suc n) n (number_end start d)
  unfolding number_end
  number_end-Steps n start (c, tok) le =
      Steps-then r (suc n) n n unread_byte _ (unread_byte-Steps r whole n) (
        Steps-then r n n n (write_from start) _ (write_from-Steps r whole n start le)
          (Steps-pure r n tok))

  number_from-Steps :
      (start b : ℕ) → r.i ≤ start → Steps r (suc start) (suc start) (number_from start b)
  unfolding number_from
  number_from-Steps start b le =
      let n = suc start in
      let m = suc n in
      Steps-bind r n m n _ (number_end start)
        (Steps-bind r n m m _ exponent
          (Steps-bind r n m m _ fraction
            (Steps-bind r n n m (minus b) int_part (minus-Steps n b (omega arith))
              (λ c. int_part-Steps start c le))
            (λ c. fraction-Steps n c (omega arith)))
          (λ d. exponent-Steps m d (omega arith)))
        (λ d. number_end-Steps n start d (omega arith))

  pub lex_number-Steps : (n : ℕ) → r.i ≤ n → Steps r n (n + 1) lex_number
  unfolding lex_number
  lex_number-Steps n le =
      Steps-at r whole n 1 (λ start. read_byte >>= number_from start)
        (λ start low l h.
          Ends-from (suc start) (start + 1) r ((read_byte >>= number_from start) l)
            (Steps-bind r start (suc start) (suc start) read_byte (number_from start)
              (read_byte-Steps r whole start (omega arith))
              (λ b. number_from-Steps start b (omega arith)) l h)
            (omega arith))
