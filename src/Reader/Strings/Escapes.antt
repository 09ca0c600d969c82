-- ===== src/Reader/Strings/Escapes.antt =====
-- What `readU4` and `handleEscaped` do at a well-formed escape.
use ffjson.Buffer.{write_rune}
use ffjson.Go.Utf16
use ffjson.Go.Utf8.{encode_rune}
use ffjson.Number.Atoi.Spec.{IsDigit, AllDigits, weight, value}
use ffjson.Number.Atoi.Uint.{parse_uint_complete}
use ffjson.Number.ByteNum
use ffjson.Outcome.{ok, index, from_option}
use ffjson.Reader.Strings.Decodes.{Escapes, Spells4}
use ffjson.Reader.Strings.{
  pending, unescape, flush, surrogate_pair, unicode_escape, escaped_char, handle_escaped,
}
use ffjson.Reader.{Reader, read_u4, collect_u4, number}
use ffjson.Tables.{has_flag, c_vhc, has_flag-hex, c_vec, has_flag-escape}
use mathlib.Core.List.{cons-ne-nil}
use ffjson.Prelude.{
  ℕ, suc, ◌+◌, ◌-◌, ◌*◌, ◌%◌, ◌^◌, ◌≤◌, ◌<◌, ◌≡◌, ◌≢◌, refl, sym, ap, ◌∙◌, true, false, [], ◌∷◌,
  ◌++◌, arith, leb, lt→leb, le→leb, ◌==◌, ne→==, Bytes, length, length-append, length-drop, drop,
  drop-lt, drop_next, drop-get_elem?, drop-append, slice-append, lt→ltb,
}

write_rune-encode_rune : (u : ℕ) → write_rune u ≡ encode_rune u
unfolding write_rune encode_rune
write_rune-encode_rune u = ground arith

module _ (r : Reader) (whole : r.l ≡ length r.s) where
  index_at : (j c : ℕ) {t : Bytes} → drop j r.s ≡ c ∷ t → index r.s j ≡ ok c
  index_at j c h = ap from_option (drop-get_elem? r.s j h)

  inside : (j c : ℕ) {t : Bytes} → drop j r.s ≡ c ∷ t → leb r.l j ≡ false
  inside j c h = lt→leb r.l j (rw whole (drop-lt r.s j h))

  collect_step :
      (n j c : ℕ) (u4 t : Bytes)
      → drop j r.s ≡ c ∷ t
      → IsDigit 16 c
      → collect_u4 (suc n) r j u4 ≡ collect_u4 n r (j + 1) (u4 ++ c ∷ [])
  unfolding collect_u4
  collect_step n j c u4 t h d =
      let hex : has_flag c c_vhc ≡ true = has_flag-hex c ∙ ground arith in
      rw (collect_u4, inside j c h, index_at j c h, hex)

  collect_four :
      (j h1 h2 h3 h4 : ℕ) (t : Bytes)
      → drop j r.s ≡ h1 ∷ h2 ∷ h3 ∷ h4 ∷ t
      → AllDigits 16 (h1 ∷ h2 ∷ h3 ∷ h4 ∷ [])
      → collect_u4 4 r j [] ≡ ok (h1 ∷ h2 ∷ h3 ∷ h4 ∷ [])
  collect_four j h1 h2 h3 h4 t h (d1, (d2, (d3, (d4, _)))) =
      let n1 = drop_next r.s j h in
      let n2 = drop_next r.s (j + 1) n1 in
      let n3 = drop_next r.s (j + 1 + 1) n2 in
      collect_step 3 j h1 [] _ h d1
      ∙ collect_step 2 (j + 1) h2 _ _ n1 d2
      ∙ collect_step 1 (j + 1 + 1) h3 _ _ n2 d3
      ∙ collect_step 0 (j + 1 + 1 + 1) h4 _ _ n3 d4
      ∙ unfold collect_u4 in refl

weight_small : (d : ℕ) → IsDigit 16 d → weight d < 16
weight_small d h = ground arith

pub four_small :
    (h1 h2 h3 h4 : ℕ)
    → AllDigits 16 (h1 ∷ h2 ∷ h3 ∷ h4 ∷ [])
    → value 16 0 (h1 ∷ h2 ∷ h3 ∷ h4 ∷ []) < 2 ^ 16
four_small h1 h2 h3 h4 (d1, (d2, (d3, (d4, _)))) =
    bound (weight h1) (weight h2) (weight h3) (weight h4) (weight_small h1 d1) (weight_small h2 d2)
      (weight_small h3 d3) (weight_small h4 d4)
  where
    bound :
        (a b c d : ℕ)
        → a < 16
        → b < 16
        → c < 16
        → d < 16
        → (((0 * 16 + a) * 16 + b) * 16 + c) * 16 + d < 2 ^ 16
    bound a b c d p q m n = omega arith

number_four :
    (h1 h2 h3 h4 : ℕ)
    → AllDigits 16 (h1 ∷ h2 ∷ h3 ∷ h4 ∷ [])
    → number (ByteNum.parse_uint (h1 ∷ h2 ∷ h3 ∷ h4 ∷ []) 16 64)
      ≡ ok (value 16 0 (h1 ∷ h2 ∷ h3 ∷ h4 ∷ []))
unfolding number ByteNum.parse_uint
number_four h1 h2 h3 h4 d =
    let small = four_small h1 h2 h3 h4 d in
    rw (
      parse_uint_complete (h1 ∷ h2 ∷ h3 ∷ h4 ∷ []) 16 64 (cons-ne-nil _ _) (omega arith)
          (omega arith) (omega arith) (omega arith) d,
      lt→ltb (value 16 0 (h1 ∷ h2 ∷ h3 ∷ h4 ∷ [])) (2 ^ 64) (omega (arith, small)),
    )

module _ (r : Reader) (whole : r.l ≡ length r.s) where
  read_u4_at :
      (j h1 h2 h3 h4 u : ℕ) (t : Bytes)
      → drop j r.s ≡ h1 ∷ h2 ∷ h3 ∷ h4 ∷ t
      → Spells4 h1 h2 h3 h4 u
      → read_u4 r j ≡ ok u
  unfolding read_u4
  read_u4_at j h1 h2 h3 h4 u t h (d, e) =
      rw (collect_four r whole j h1 h2 h3 h4 t h d, number_four h1 h2 h3 h4 d)
        (ap ok (whole_rune (four_small h1 h2 h3 h4 d) e))
    where
      whole_rune : {n : ℕ} → n < 2 ^ 16 → n ≡ u → n % 2 ^ 32 ≡ u
      whole_rune small e = omega arith

  -- Behind `a` unwritten bytes and `back` more, the bytes to write are `a`.
  pub pending_at :
      (j : ℕ) (a t : Bytes) (back : ℕ)
      → drop r.i r.s ≡ a ++ t
      → 1 ≤ length t
      → j ≡ r.i + length a + back
      → pending r j back ≡ ok a
  unfolding pending
  pending_at j a t back h one e =
      let sizes : length r.s - r.i ≡ length a + length t =
        sym (length-drop r.i r.s) ∙ ap length h ∙ length-append a t in
      let low = le→leb (r.i + back) j (omega arith) in
      let high = le→leb j (length r.s + back) (omega arith) in
      let stop : j - back ≡ r.i + length a = omega arith in
      rw (low, high, stop) (ap ok (slice-append r.s a t r.i h))

  -- What an escape leaves, its `\` standing behind `a` unwritten bytes: `bytes` are written, and the
  -- reader goes on at `k`.
  flush_at :
      (j k : ℕ) (a t out bytes : Bytes)
      → drop r.i r.s ≡ a ++ t
      → 1 ≤ length t
      → j ≡ r.i + length a + 2
      → flush r j k out bytes ≡ (ok k, record r { i = k }, out ++ (a ++ bytes))
  unfolding flush
  flush_at j k a t out bytes h one e = rw (flush, pending_at j a t 2 h one e)

  pub escape_at :
      (j c b : ℕ) (a t out : Bytes)
      → drop r.i r.s ≡ a ++ (b'\\' ∷ c ∷ t)
      → drop j r.s ≡ c ∷ t
      → j ≡ r.i + length a + 1
      → Escapes c b
      → handle_escaped r j out ≡ (ok (j + 1), record r { i = j + 1 }, out ++ (a ++ b ∷ []))
  unfolding handle_escaped escaped_char
  escape_at j c b a t out h at e esc =
      let valid : has_flag c c_vec ≡ true = has_flag-escape c ∙ ground arith in
      let not_u : (c == b'u') ≡ false = ground arith in
      let letter : unescape c ≡ b ∷ [] = unfold unescape in ground arith in
      rw (inside r whole j c at, index_at r whole j c at, not_u, valid, letter)
        (flush_at (j + 1) (j + 1) a (b'\\' ∷ c ∷ t) out (b ∷ []) h (omega arith) (omega arith))

  pub unicode_at :
      (j h1 h2 h3 h4 u : ℕ) (a t out : Bytes)
      → drop r.i r.s ≡ a ++ (b'\\' ∷ b'u' ∷ h1 ∷ h2 ∷ h3 ∷ h4 ∷ t)
      → drop j r.s ≡ b'u' ∷ h1 ∷ h2 ∷ h3 ∷ h4 ∷ t
      → j ≡ r.i + length a + 1
      → Spells4 h1 h2 h3 h4 u
      → Utf16.is_surrogate u ≡ false
      → handle_escaped r j out ≡ (ok (j + 5), record r { i = j + 5 }, out ++ (a ++ encode_rune u))
  unfolding handle_escaped escaped_char unicode_escape
  unicode_at j h1 h2 h3 h4 u a t out h at e sp plain_u =
      let k : j + 1 + 4 ≡ j + 5 = omega arith in
      rw
        (
          inside r whole j b'u' at,
          index_at r whole j b'u' at,
          read_u4_at (j + 1) h1 h2 h3 h4 u t (drop_next r.s j at) sp,
          plain_u,
          write_rune-encode_rune u,
          k,
        )
        (flush_at (j + 1) (j + 5) a _ out (encode_rune u) h (omega arith) (omega arith))

  pub pair_at :
      (j h1 h2 h3 h4 u x y k1 k2 k3 k4 v : ℕ) (a t out : Bytes)
      → drop r.i r.s ≡ a ++ (b'\\' ∷ b'u' ∷ h1 ∷ h2 ∷ h3 ∷ h4 ∷ x ∷ y ∷ k1 ∷ k2 ∷ k3 ∷ k4 ∷ t)
      → drop j r.s ≡ b'u' ∷ h1 ∷ h2 ∷ h3 ∷ h4 ∷ x ∷ y ∷ k1 ∷ k2 ∷ k3 ∷ k4 ∷ t
      → j ≡ r.i + length a + 1
      → Spells4 h1 h2 h3 h4 u
      → Utf16.is_surrogate u ≡ true
      → Spells4 k1 k2 k3 k4 v
      → Utf16.decode_rune u v ≢ 0xFFFD
      → handle_escaped r j out
        ≡ (ok (j + 11), record r { i = j + 11 }, out ++ (a ++ encode_rune (Utf16.decode_rune u v)))
  unfolding handle_escaped escaped_char unicode_escape surrogate_pair
  pair_at j h1 h2 h3 h4 u x y k1 k2 k3 k4 v a t out h at e sp high sp2 paired =
      let k : j + 1 + 10 ≡ j + 11 = omega arith in
      let m : j + 7 ≡ j + 1 + 6 = omega arith in
      let second = rw m at (drop-append r.s (b'u' ∷ h1 ∷ h2 ∷ h3 ∷ h4 ∷ x ∷ y ∷ []) j at) in
      let valid : (Utf16.decode_rune u v == 0xFFFD) ≡ false = ne→== _ 0xFFFD paired in
      rw (
        inside r whole j b'u' at,
        index_at r whole j b'u' at,
        read_u4_at (j + 1) h1 h2 h3 h4 u _ (drop_next r.s j at) sp,
        high,
        read_u4_at (j + 1 + 6) k1 k2 k3 k4 v t second sp2,
        surrogate_pair,
        pending_at (j + 1) a _ 2 h (omega arith) (omega arith),
        valid,
        write_rune-encode_rune (Utf16.decode_rune u v),
        k,
      )
