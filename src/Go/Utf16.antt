-- ===== src/Go/Utf16.antt =====
-- Go's `utf16.IsSurrogate` and `utf16.DecodeRune`.
use ffjson.Go.Utf8.{rune_error}
use ffjson.Prelude.{ℕ, ◌+◌, ◌-◌, ◌*◌, Bool, ◌&&◌, between, if◌then◌else◌}

abbrev pub is_surrogate : ℕ → Bool
is_surrogate r = between 0xD800 0xDFFF r

-- The code point that two halves stand for, or U+FFFD if they are no pair.
unfoldable pub decode_rune : ℕ → ℕ → ℕ
decode_rune r1 r2 =
    if between 0xD800 0xDBFF r1 && between 0xDC00 0xDFFF r2
    then (r1 - 0xD800) * 0x400 + (r2 - 0xDC00) + 0x10000
    else rune_error
