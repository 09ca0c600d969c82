-- ===== src/JsonString/Body.antt =====
-- Each round of `WriteJson` writes a piece of a string body that stands for the rune it took.
use ffjson.Go.Utf16
use ffjson.Go.Utf8.{rune_error, rune_self, invalid, decode_rune, encode_rune}
use ffjson.Go.Utf8.WellFormed.{Front, encode_ascii, decode_ascii, decode_rune-Front}
use ffjson.JsonString.{hex_char, escape_ascii, Step, ascii_round, rune_round, write_round}
use ffjson.Number.Atoi.Spec.{IsDigit, weight}
use ffjson.Reader.Strings.Decodes.{Spells4, Escapes}
use ffjson.Tables.{is_plain, is_plain-plain, plain, string_special}
use ffjson.Prelude.{
  ℕ, suc, ◌+◌, ◌*◌, ◌/◌, ◌%◌, ◌<◌, ◌≡◌, ◌≢◌, refl, sym, ap, ◌∙◌, true, false, ◌&&◌, ◌||◌, inl, inr,
  [], ◌∷◌, ◌++◌, append_assoc, arith, ltb, ltb→lt, ◌==◌, ==_iff, if◌then◌else◌, Bytes, Bool-cases,
  codes, length, length-drop, drop, take, take-append, all_below, all_below_sound,
}

hex-rows : all_below 16 (λ x. hex_char x == (if ltb x 10 then x + 48 else x + 87)) ≡ true
unfolding all_below hex_char
hex-rows = refl

hex_char-IsDigit : (x : ℕ) → x < 16 → IsDigit 16 (hex_char x) × (weight (hex_char x) ≡ x)
hex_char-IsDigit x h =
    let e : hex_char x ≡ (if ltb x 10 then x + 48 else x + 87) = (==_iff _ _).0 (
      all_below_sound 16 (λ y. hex_char y == (if ltb y 10 then y + 48 else y + 87)) x hex-rows h) in
    rw e (ground arith)

-- `\u00` and two digits.
ascii_digits : (b : ℕ) → b < 128 → Spells4 b'0' b'0' (hex_char (b / 16)) (hex_char (b % 16)) b
ascii_digits b h =
    let (d1, w1) = hex_char-IsDigit (b / 16) (omega arith) in
    let (d2, w2) = hex_char-IsDigit (b % 16) (omega arith) in
    (
      (omega arith, (omega arith, (d1, (d2, tt)))),
      spelled (weight (hex_char (b / 16))) (weight (hex_char (b % 16))) w1 w2,
    )
  where
    spelled : (x y : ℕ) → x ≡ b / 16 → y ≡ b % 16 → (((0 * 16 + 0) * 16 + 0) * 16 + x) * 16 + y ≡ b
    spelled x y p q = omega arith

-- What a relation of string bodies to the bytes that they stand for may be asked to allow: the pieces
-- that `WriteJson` writes.
pub record Grammar (G : Bytes → Bytes → Type 0) : Type 0 where
  pub done : G [] []
  pub plain : (c : ℕ) (t d : Bytes) → c < 128 → string_special c ≡ false → G t d → G (c ∷ t) (c ∷ d)
  pub front :
      (s : Bytes) (p : ℕ × ℕ) (f : Front s p) (t d : Bytes)
      → G t d
      → G (f.front ++ t) (f.front ++ d)
  pub escape : (c b : ℕ) (t d : Bytes) → Escapes c b → G t d → G (b'\\' ∷ c ∷ t) (b ∷ d)
  pub unicode :
      (h1 h2 h3 h4 u : ℕ) (t d : Bytes)
      → Spells4 h1 h2 h3 h4 u
      → Utf16.is_surrogate u ≡ false
      → G t d
      → G (b'\\' ∷ b'u' ∷ h1 ∷ h2 ∷ h3 ∷ h4 ∷ t) (encode_rune u ++ d)

module _ (G : Bytes → Bytes → Type 0) (g : Grammar G) where
  escape_ascii-Decodes :
      (b : ℕ) (body d : Bytes)
      → b < 128
      → plain b ≡ false
      → G body d
      → G (escape_ascii b ++ body) (encode_rune b ++ d)
  unfolding escape_ascii
  escape_ascii-Decodes b body d small special k =
      rw (encode_ascii b small) (elim (Bool-cases (b == b'\\' || b == b'"')) [
        | inl quoted ↦ rw quoted (g.escape b b body d (ground arith) k)
        | inr other ↦ elim (Bool-cases (b == b'\n')) [
          | inl newline ↦ rw (other, newline) (g.escape b'n' b body d (ground arith) k)
          | inr other2 ↦ elim (Bool-cases (b == b'\r')) [
            | inl return ↦ rw (other, other2, return) (g.escape b'r' b body d (ground arith) k)
            | inr other3 ↦
                rw (other, other2, other3)
                  (rw (encode_ascii b small) at (
                    g.unicode b'0' b'0' (hex_char (b / 16)) (hex_char (b % 16)) b body d
                      (ascii_digits b small) (ground arith) k))
          ]
        ]
      ])

  -- Bytes that stand for themselves in front of any body.
  abbrev pub Transparent : Bytes → Type 0
  Transparent run = (body d : Bytes) → G body d → G (run ++ body) (run ++ d)

  -- What a round at the front of `s` leaves: `run` holds bytes that stand for themselves, `rest` is
  -- `s` behind its first rune, and what is written in front of a body adds that rune to it.
  pub record IsRound (run s : Bytes) (st : Step) : Type 0 where
    pub plain_run : Transparent st.0
    pub rest_is : st.1 ≡ drop (decode_rune s).1 s
    pub shorter : length st.1 < length s
    pub decodes :
        (body d : Bytes)
        → G body (st.0 ++ d)
        → G (st.2 ++ body) (run ++ (encode_rune (decode_rune s).0 ++ d))

  Transparent-append : (a b : Bytes) → Transparent a → Transparent b → Transparent (a ++ b)
  Transparent-append a b ha hb body d k =
      rw (append_assoc a b body, append_assoc a b d) (ha (b ++ body) (b ++ d) (hb body d k))

  module _ (run : Bytes) (plain_run : Transparent run) (b : ℕ) (t : Bytes) where
    ascii_round-IsRound : b < 128 → IsRound run (b ∷ t) (ascii_round run b t)
    unfolding ascii_round
    ascii_round-IsRound small = elim (Bool-cases (is_plain b)) [
      | inl copied ↦
          let special : string_special b ≡ false = ground (arith, is_plain-plain b small) in
          rw copied (record {
            plain_run =
                Transparent-append run (b ∷ []) plain_run
                  (λ body d k. g.plain b body d small special k);
            rest_is = rw (decode_ascii b t small);
            shorter = omega arith;
            decodes = λ body d k.
                rw (decode_ascii b t small, encode_ascii b small) (rw append_assoc at k);
          })
      | inr escaped ↦ rw escaped (record {
        plain_run = λ body d k. k;
        rest_is = rw (decode_ascii b t small);
        shorter = omega arith;
        decodes = λ body d k.
            rw (decode_ascii b t small, append_assoc)
              (plain_run (escape_ascii b ++ body) (encode_rune b ++ d)
                (escape_ascii-Decodes b body d small (sym (is_plain-plain b small) ∙ escaped) k));
      })
    ]

    invalid-IsRound :
        decode_rune (b ∷ t) ≡ invalid → IsRound run (b ∷ t) (rune_round run (b ∷ t) invalid)
    unfolding rune_round
    invalid-IsRound e = record {
      plain_run = λ body d k. k;
      rest_is = rw e;
      shorter = omega arith;
      decodes = λ body d k.
          rw (e, append_assoc)
            (plain_run (codes "\\ufffd" ++ body) (encode_rune 0xFFFD ++ d)
              (g.unicode b'f' b'f' b'f' b'd' 0xFFFD body d (omega arith, refl) refl k));
    }

    module _ (size : ℕ) {c : ℕ} (f : Front (b ∷ t) (c, size))
        (e : decode_rune (b ∷ t) ≡ (c, size)) where
      rest_shorter : length (drop size (b ∷ t)) < suc (length t)
      rest_shorter = omega (arith, length-drop size (b ∷ t), f.size, f.several)

      taken : take size (b ∷ t) ≡ f.front
      taken = ap (take size) f.splits ∙ rw f.size (take-append f.front f.rest)

    -- The two separators are escaped.
    separator-IsRound :
        (size u h : ℕ)
        → Front (b ∷ t) (u, size)
        → decode_rune (b ∷ t) ≡ (u, size)
        → hex_char (u % 16) ≡ h
        → Spells4 b'2' b'0' b'2' h u
        → Utf16.is_surrogate u ≡ false
        → IsRound run
            (b ∷ t)
            ([], drop size (b ∷ t), run ++ (codes "\\u202" ++ hex_char (u % 16) ∷ []))
    separator-IsRound size u h f e hex sp low = record {
      plain_run = λ body d k. k;
      rest_is = rw e;
      shorter = rest_shorter size f e;
      decodes = λ body d k.
          rw (e, append_assoc, hex)
            (plain_run (codes "\\u202" ++ h ∷ body) (encode_rune u ++ d)
              (g.unicode b'2' b'0' b'2' h u body d sp low k));
    }

    copied-IsRound :
        (size c : ℕ)
        → Front (b ∷ t) (c, size)
        → decode_rune (b ∷ t) ≡ (c, size)
        → IsRound run (b ∷ t) (run ++ take size (b ∷ t), drop size (b ∷ t), [])
    copied-IsRound size c f e = record {
      plain_run = rw (taken size f e) (
          Transparent-append run f.front plain_run
            (λ body d k. g.front (b ∷ t) (c, size) f body d k));
      rest_is = rw e;
      shorter = rest_shorter size f e;
      decodes = λ body d k. rw (e, f.encoded) (rw (taken size f e, append_assoc) at k);
    }

    rune_round-IsRound :
        (size c : ℕ)
        → (decode_rune (b ∷ t) ≢ invalid → Front (b ∷ t) (c, size))
        → decode_rune (b ∷ t) ≡ (c, size)
        → IsRound run (b ∷ t) (rune_round run (b ∷ t) (c, size))
    unfolding rune_round
    rune_round-IsRound size c front e = elim (Bool-cases (c == rune_error && size == 1)) [
      | inl bad ↦
          let c_is : c ≡ rune_error = ground arith in
          let size_is : size ≡ 1 = ground arith in
          let wrong : decode_rune (b ∷ t) ≡ invalid = e ∙ (λ i. (c_is i, size_is i)) in
          rw (c_is, size_is) (invalid-IsRound wrong)
      | inr fine ↦
          let f : Front (b ∷ t) (c, size) = front (well_formed fine) in
          elim (Bool-cases (c == 0x2028)) [
            | inl line ↦
                let c_is : c ≡ 0x2028 = ground arith in
                rw (fine, line)
                  (separator-IsRound size c b'8' f e (rw c_is) (rw c_is (omega arith, refl))
                    (rw c_is))
            | inr not_line ↦ elim (Bool-cases (c == 0x2029)) [
              | inl paragraph ↦
                  let c_is : c ≡ 0x2029 = ground arith in
                  rw (fine, not_line, paragraph)
                    (separator-IsRound size c b'9' f e (rw c_is) (rw c_is (omega arith, refl))
                      (rw c_is))
              | inr other ↦ rw (fine, not_line, other) (copied-IsRound size c f e)
            ]
          ]
    ]
      where
        well_formed : (c == rune_error && size == 1) ≡ false → decode_rune (b ∷ t) ≢ invalid
        well_formed fine x =
            let c_is : c ≡ rune_error =
              sym (ap (λ (p : ℕ × ℕ). p.0) e) ∙ ap (λ (p : ℕ × ℕ). p.0) x in
            let size_is : size ≡ 1 = sym (ap (λ (p : ℕ × ℕ). p.1) e) ∙ ap (λ (p : ℕ × ℕ). p.1) x in
            ground arith

    pub write_round-IsRound : IsRound run (b ∷ t) (write_round run b t)
    unfolding write_round
    write_round-IsRound = elim (Bool-cases (ltb b rune_self)) [
      | inl small ↦ rw small (ascii_round-IsRound (ltb→lt b rune_self small))
      | inr large ↦ rw large (
          rune_round-IsRound (decode_rune (b ∷ t)).1 (decode_rune (b ∷ t)).0
            (λ ne. decode_rune-Front b t (ground arith) ne) refl)
    ]
