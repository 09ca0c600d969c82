-- ===== src/JsonString.antt =====
-- fflib/v1/jsonstring.go: `WriteJson` and `WriteJsonString`. In the loop, `run` is `s[start:i]` and
-- `rest` is `s[i:]`.
pub mod Coerce
pub mod Body
pub mod Written
pub mod Unquote
pub mod RoundTrip
use ffjson.Go.Utf8.{rune_error, rune_self, decode_rune}
use ffjson.Tables.{is_plain}
use ffjson.Prelude.{
  ℕ, zero, suc, ◌+◌, ◌/◌, ◌%◌, ◌&&◌, ◌||◌, [], ◌∷◌, ◌++◌, ltb, ◌==◌, if◌then◌else◌, Bytes, codes,
  get_or, length, drop, take,
}

-- `hex[x]`
pub hex_char : ℕ → ℕ
hex_char x = get_or (codes "0123456789abcdef") x 0

-- The switch on a byte below `utf8.RuneSelf` that is not copied.
pub escape_ascii : ℕ → Bytes
unfolding hex_char
escape_ascii b =
    if b == b'\\' || b == b'"'
    then b'\\' ∷ b ∷ []
    else if b == b'\n'
    then b'\\' ∷ b'n' ∷ []
    else if b == b'\r'
    then b'\\' ∷ b'r' ∷ []
    else codes "\\u00" ++ hex_char (b / 16) ∷ hex_char (b % 16) ∷ []

-- A round at the byte `b`, with `t` behind it: the next `run`, the next `rest`, and what is written.
abbrev pub Step : Type 0
Step = Bytes × Bytes × Bytes

pub ascii_round : Bytes → ℕ → Bytes → Step
unfolding escape_ascii
ascii_round run b t = if is_plain b then (run ++ b ∷ [], t, []) else ([], t, run ++ escape_ascii b)

-- The rest of a round, at the rune `c` of `size` bytes in front of `rest`.
pub rune_round : Bytes → Bytes → ℕ × ℕ → Step
unfolding hex_char
rune_round run rest (c, size) =
    if c == rune_error && size == 1
    then ([], drop size rest, run ++ codes "\\ufffd")
    else if c == 0x2028 || c == 0x2029
    then ([], drop size rest, run ++ (codes "\\u202" ++ hex_char (c % 16) ∷ []))
    else (run ++ take size rest, drop size rest, [])

pub write_round : Bytes → ℕ → Bytes → Step
write_round run b t =
    if ltb b rune_self then ascii_round run b t else rune_round run (b ∷ t) (decode_rune (b ∷ t))

-- Each round takes a byte or more, so that one round for each byte is enough.
pub write_loop : ℕ → Bytes → Bytes → Bytes → Bytes
write_loop fuel run [] out = out ++ run
write_loop zero run (b ∷ t) out = out
write_loop (suc fuel) run (b ∷ t) out =
    let (run', rest', written) = write_round run b t in write_loop fuel run' rest' (out ++ written)

unfoldable pub write_json : Bytes → Bytes → Bytes
unfolding write_loop write_round ascii_round rune_round is_plain decode_rune
write_json buf s = write_loop (length s) [] s (buf ++ b'"' ∷ []) ++ b'"' ∷ []

-- `[]byte(s)` is `s` here.
abbrev pub write_json_string : Bytes → Bytes → Bytes
write_json_string buf s = write_json buf s
