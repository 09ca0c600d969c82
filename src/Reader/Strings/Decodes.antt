-- ===== src/Reader/Strings/Decodes.antt =====
-- The body of a JSON string and the bytes that it stands for, said by a grammar.
use ffjson.Go.Utf16
use ffjson.Go.Utf8.{encode_rune}
use ffjson.Number.Atoi.Spec.{AllDigits, value}
use ffjson.Tables.{string_special}
use ffjson.Prelude.{ℕ, ◌≡◌, ◌≢◌, ◌⊎◌, true, false, [], ◌∷◌, ◌++◌, Bytes}

-- The letter behind a backslash and the byte that the two stand for.
abbrev pub Escapes : ℕ → ℕ → Type 0
Escapes c b =
    ((c ≡ b'"') × (b ≡ b'"'))
    ⊎ ((c ≡ b'\\') × (b ≡ b'\\'))
    ⊎ ((c ≡ b'/') × (b ≡ b'/'))
    ⊎ ((c ≡ b'b') × (b ≡ 8))
    ⊎ ((c ≡ b'f') × (b ≡ 12))
    ⊎ ((c ≡ b'n') × (b ≡ b'\n'))
    ⊎ ((c ≡ b'r') × (b ≡ b'\r'))
    ⊎ ((c ≡ b't') × (b ≡ b'\t'))

-- Four hex digits that spell `u`.
abbrev pub Spells4 : ℕ → ℕ → ℕ → ℕ → ℕ → Type 0
Spells4 h1 h2 h3 h4 u =
    AllDigits 16 (h1 ∷ h2 ∷ h3 ∷ h4 ∷ []) × (value 16 0 (h1 ∷ h2 ∷ h3 ∷ h4 ∷ []) ≡ u)

-- Bytes that stand for themselves inside a string.
abbrev pub AllPlain : Bytes → Type 0
AllPlain [] = Unit
AllPlain (c ∷ s) = (string_special c ≡ false) × AllPlain s

-- `Decodes body bytes`. A pair of surrogates is two `\u` escapes in JSON; here the two bytes `x` and
-- `y`, where the second `\u` should stand, are arbitrary.
pub data Decodes : Bytes → Bytes → Type 0 where
  done : Decodes [] []
  plain : {c : ℕ} {t d : Bytes} → string_special c ≡ false → Decodes t d → Decodes (c ∷ t) (c ∷ d)
  escape : {c b : ℕ} {t d : Bytes} → Escapes c b → Decodes t d → Decodes (b'\\' ∷ c ∷ t) (b ∷ d)
  unicode :
      {h1 h2 h3 h4 u : ℕ} {t d : Bytes}
      → Spells4 h1 h2 h3 h4 u
      → Utf16.is_surrogate u ≡ false
      → Decodes t d
      → Decodes (b'\\' ∷ b'u' ∷ h1 ∷ h2 ∷ h3 ∷ h4 ∷ t) (encode_rune u ++ d)
  pair :
      {h1 h2 h3 h4 u x y k1 k2 k3 k4 v : ℕ} {t d : Bytes}
      → Spells4 h1 h2 h3 h4 u
      → Utf16.is_surrogate u ≡ true
      → Spells4 k1 k2 k3 k4 v
      → Utf16.decode_rune u v ≢ 0xFFFD
      → Decodes t d
      → Decodes
          (b'\\' ∷ b'u' ∷ h1 ∷ h2 ∷ h3 ∷ h4 ∷ x ∷ y ∷ k1 ∷ k2 ∷ k3 ∷ k4 ∷ t)
          (encode_rune (Utf16.decode_rune u v) ++ d)

pub Decodes-append :
    (run : Bytes) {body d : Bytes}
    → AllPlain run
    → Decodes body d
    → Decodes (run ++ body) (run ++ d)
Decodes-append [] h k = k
Decodes-append (c ∷ run) (hc, h) k = plain hc (Decodes-append run h k)
