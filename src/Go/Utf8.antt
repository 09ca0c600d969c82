-- ===== src/Go/Utf8.antt =====
-- Go's `utf8.DecodeRune` and `utf8.EncodeRune`, which fflib/v1 calls: well-formed UTF-8 is that of
-- the Unicode standard, and any other start of a text is one byte of `RuneError`.
pub mod WellFormed
use ffjson.Prelude.{
  ℕ, ◌+◌, ◌-◌, ◌*◌, ◌/◌, ◌%◌, Bool, ◌&&◌, ◌||◌, [], ◌∷◌, ltb, ◌==◌, between, if◌then◌else◌, Bytes,
}

abbrev pub rune_error : ℕ
rune_error = 0xFFFD

abbrev pub rune_self : ℕ
rune_self = 0x80

abbrev pub continues : ℕ → Bool
continues = between 0x80 0xBF

-- What a text that is no well-formed UTF-8 decodes to.
abbrev pub invalid : ℕ × ℕ
invalid = (rune_error, 1)

decode_two : ℕ → Bytes → ℕ × ℕ
decode_two a (b ∷ t) = if continues b then ((a - 0xC0) * 0x40 + (b - 0x80), 2) else invalid
decode_two a _ = invalid

-- The second byte of a sequence of three: no overlong form, no surrogate.
abbrev pub second_of_three : ℕ → ℕ → Bool
second_of_three a b =
    if a == 0xE0
    then between 0xA0 0xBF b
    else if a == 0xED
    then between 0x80 0x9F b
    else continues b

decode_three : ℕ → Bytes → ℕ × ℕ
decode_three a (b ∷ c ∷ t) =
    if second_of_three a b && continues c
    then ((a - 0xE0) * 0x1000 + (b - 0x80) * 0x40 + (c - 0x80), 3)
    else invalid
decode_three a _ = invalid

-- The second byte of a sequence of four: no overlong form, nothing above U+10FFFF.
abbrev pub second_of_four : ℕ → ℕ → Bool
second_of_four a b =
    if a == 0xF0
    then between 0x90 0xBF b
    else if a == 0xF4
    then between 0x80 0x8F b
    else continues b

decode_four : ℕ → Bytes → ℕ × ℕ
decode_four a (b ∷ c ∷ d ∷ t) =
    if second_of_four a b && continues c && continues d
    then ((a - 0xF0) * 0x40000 + (b - 0x80) * 0x1000 + (c - 0x80) * 0x40 + (d - 0x80), 4)
    else invalid
decode_four a _ = invalid

-- The rune in front and its size in bytes.
unfoldable pub decode_rune : Bytes → ℕ × ℕ
unfolding decode_two decode_three decode_four
decode_rune [] = (rune_error, 0)
decode_rune (a ∷ t) =
    if ltb a rune_self
    then (a, 1)
    else if between 0xC2 0xDF a
    then decode_two a t
    else if between 0xE0 0xEF a
    then decode_three a t
    else if between 0xF0 0xF4 a
    then decode_four a t
    else invalid

encode_three : ℕ → Bytes
encode_three r = (r / 0x1000 + 0xE0) ∷ (r / 0x40 % 0x40 + 0x80) ∷ (r % 0x40 + 0x80) ∷ []

unfoldable pub encode_rune : ℕ → Bytes
unfolding encode_three
encode_rune r =
    if ltb r 0x80
    then r ∷ []
    else if ltb r 0x800
    then (r / 0x40 + 0xC0) ∷ (r % 0x40 + 0x80) ∷ []
    else if between 0xD800 0xDFFF r || ltb 0x10FFFF r
    then encode_three rune_error
    else if ltb r 0x10000
    then encode_three r
    else (r / 0x40000 + 0xF0)
      ∷ (r / 0x1000 % 0x40 + 0x80)
      ∷ (r / 0x40 % 0x40 + 0x80)
      ∷ (r % 0x40 + 0x80)
      ∷ []
