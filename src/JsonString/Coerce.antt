-- ===== src/JsonString/Coerce.antt =====
-- A text as Go's runes: each well-formed sequence as it is, and each other byte as U+FFFD.
use ffjson.Go.Utf8.{continues, second_of_three, second_of_four, decode_rune, encode_rune}
use ffjson.Go.Utf8.WellFormed.{
  decode_ascii, encode_ascii, decode_two_lem, encode_two, decode_three_lem, encode_three_lem,
  decode_four_lem, encode_four,
}
use ffjson.Prelude.{
  ℕ, zero, suc, ◌≤◌, ◌<◌, ◌≡◌, refl, ◌∙◌, true, [], ◌∷◌, ◌++◌, arith, between, Bytes, length, drop,
}

-- A rune in front of a text has one byte or more.
unfoldable pub to_runes : ℕ → Bytes → Bytes
to_runes fuel [] = []
to_runes zero (b ∷ t) = []
to_runes (suc fuel) (b ∷ t) =
    let (c, size) = decode_rune (b ∷ t) in encode_rune c ++ to_runes fuel (drop size (b ∷ t))

-- Go's `string([]rune(s))`.
unfoldable pub coerce : Bytes → Bytes
unfolding to_runes
coerce s = to_runes (length s) s

-- Well-formed UTF-8, by the table of the Unicode standard.
pub data IsUtf8 : Bytes → Type 0 where
  end : IsUtf8 []
  one : {a : ℕ} {t : Bytes} → a < 0x80 → IsUtf8 t → IsUtf8 (a ∷ t)
  two :
      {a b : ℕ} {t : Bytes}
      → between 0xC2 0xDF a ≡ true
      → continues b ≡ true
      → IsUtf8 t
      → IsUtf8 (a ∷ b ∷ t)
  three :
      {a b c : ℕ} {t : Bytes}
      → between 0xE0 0xEF a ≡ true
      → second_of_three a b ≡ true
      → continues c ≡ true
      → IsUtf8 t
      → IsUtf8 (a ∷ b ∷ c ∷ t)
  four :
      {a b c d : ℕ} {t : Bytes}
      → between 0xF0 0xF4 a ≡ true
      → second_of_four a b ≡ true
      → continues c ≡ true
      → continues d ≡ true
      → IsUtf8 t
      → IsUtf8 (a ∷ b ∷ c ∷ d ∷ t)

to_runes-step :
    (fuel a c n : ℕ) (t : Bytes)
    → decode_rune (a ∷ t) ≡ (c, n)
    → to_runes (suc fuel) (a ∷ t) ≡ encode_rune c ++ to_runes fuel (drop n (a ∷ t))
unfolding to_runes
to_runes-step fuel a c n t e = rw e

to_runes-IsUtf8 : {s : Bytes} (fuel : ℕ) → length s ≤ fuel → IsUtf8 s → to_runes fuel s ≡ s
to_runes-IsUtf8 fuel h IsUtf8.end = unfold to_runes in refl
to_runes-IsUtf8 zero h (IsUtf8.one _ _) = absurd (omega arith)
to_runes-IsUtf8 (suc fuel) h (IsUtf8.one {a} {t} p u) =
    to_runes-step fuel a a 1 t (decode_ascii a t p)
    ∙ rw (encode_ascii a p, to_runes-IsUtf8 fuel (omega arith) u)
to_runes-IsUtf8 zero h (IsUtf8.two _ _ _) = absurd (omega arith)
to_runes-IsUtf8 (suc fuel) h (IsUtf8.two {a} {b} {t} p q u) =
    to_runes-step fuel a _ 2 (b ∷ t) (decode_two_lem a b t p q)
    ∙ rw (encode_two a b p q, to_runes-IsUtf8 fuel (omega arith) u)
to_runes-IsUtf8 zero h (IsUtf8.three _ _ _ _) = absurd (omega arith)
to_runes-IsUtf8 (suc fuel) h (IsUtf8.three {a} {b} {c} {t} p q m u) =
    to_runes-step fuel a _ 3 (b ∷ c ∷ t) (decode_three_lem a b c t p q m)
    ∙ rw (encode_three_lem a b c p q m, to_runes-IsUtf8 fuel (omega arith) u)
to_runes-IsUtf8 zero h (IsUtf8.four _ _ _ _ _) = absurd (omega arith)
to_runes-IsUtf8 (suc fuel) h (IsUtf8.four {a} {b} {c} {d} {t} p q m n u) =
    to_runes-step fuel a _ 4 (b ∷ c ∷ d ∷ t) (decode_four_lem a b c d t p q m n)
    ∙ rw (encode_four a b c d p q m n, to_runes-IsUtf8 fuel (omega arith) u)

pub coerce-IsUtf8 : {s : Bytes} → IsUtf8 s → coerce s ≡ s
unfolding coerce
coerce-IsUtf8 {s} u = to_runes-IsUtf8 (length s) (omega arith) u
