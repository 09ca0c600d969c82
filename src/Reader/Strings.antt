-- ===== src/Reader/Strings.antt =====
-- fflib/v1/reader.go, `handleEscaped` and `SliceString`, and `scanString` of reader_scan_generic.go.
-- `out` is the bytes that the decoding buffer holds.
pub mod Decodes
pub mod Escapes
pub mod Complete
pub mod Bounds
pub mod Total
use ffjson.Buffer.{write_rune}
use ffjson.Go.Utf16
use ffjson.Go.Utf8.{rune_error}
use ffjson.Outcome.{
  eof, invalid_unicode_surrogate, invalid_escaped_char, invalid_json_char, panic, no_fuel, Outcome,
  ok, err, index,
}
use ffjson.Reader.{Reader, read_u4}
use ffjson.Tables.{has_flag, c_vec, c_ijc, slice_string_mask}
use ffjson.Prelude.{
  ℕ, zero, suc, ◌+◌, ◌-◌, not, ◌&&◌, [], ◌∷◌, ◌++◌, leb, ◌==◌, if◌then◌else◌, Bytes, length, drop,
  slice,
}

-- What a function that moves the reader and writes to `out` leaves: its result, the reader, `out`.
abbrev pub Written : Type 0 → Type 0
Written A = Outcome A × Reader × Bytes

-- The loop of `scanString` over the bytes from `j` on: the position behind the first special byte.
pub scan_from : Bytes → ℕ → ℕ × ℕ
scan_from [] j = (j, 0)
scan_from (c ∷ t) j = if not (has_flag c slice_string_mask) then scan_from t (j + 1) else (j + 1, c)

unfoldable pub scan_string : Bytes → ℕ → ℕ × ℕ
unfolding scan_from
scan_string s j = scan_from (drop j s) j

-- `r.s[r.i : j-back]`, what has been read and not yet written, with the panic of a slice out of range.
pub pending : Reader → ℕ → ℕ → Outcome Bytes
pending r j back =
    if leb (r.i + back) j && leb j (length r.s + back)
    then ok (slice r.s r.i (j - back))
    else err panic

-- The switch behind a valid escape: what it writes.
pub unescape : ℕ → Bytes
unescape c =
    if c == b'"'
    then b'"' ∷ []
    else if c == b'\\'
    then b'\\' ∷ []
    else if c == b'/'
    then b'/' ∷ []
    else if c == b'b'
    then 8 ∷ []
    else if c == b'f'
    then 12 ∷ []
    else if c == b'n'
    then b'\n' ∷ []
    else if c == b'r'
    then b'\r' ∷ []
    else if c == b't'
    then b'\t' ∷ []
    else []

-- `out.Write(r.s[r.i : j-2])`, `r.i = k`, and then the bytes of the escape.
flush : Reader → ℕ → ℕ → Bytes → Bytes → Written ℕ
unfolding pending
flush r j k out bytes = elim (pending r j 2) [
  | err e ↦ (err e, r, out)
  | ok run ↦ (ok k, record r { i = k }, out ++ (run ++ bytes))
]

-- A pair of surrogates, the second of which `readU4(j + 6)` gave.
surrogate_pair : Reader → ℕ → Bytes → ℕ → Outcome ℕ → Written ℕ
unfolding pending
surrogate_pair r j out ru (err e) = (err e, r, out)
surrogate_pair r j out ru (ok ru2) = elim (pending r j 2) [
  | err e ↦ (err e, r, out)
  | ok run ↦
      let rval = Utf16.decode_rune ru ru2 in
      if not (rval == rune_error)
      then (ok (j + 10), record r { i = j + 10 }, out ++ (run ++ write_rune rval))
      else (err (invalid_unicode_surrogate ru ru2), record r { i = j + 10 }, out ++ run)
]

-- `\u`, with what `readU4(j)` gave.
unicode_escape : Reader → ℕ → Bytes → Outcome ℕ → Written ℕ
unfolding flush surrogate_pair
unicode_escape r j out (err e) = (err e, r, out)
unicode_escape r j out (ok ru) =
    if Utf16.is_surrogate ru
    then surrogate_pair r j out ru (read_u4 r (j + 6))
    else flush r j (j + 4) out (write_rune ru)

-- The byte behind the backslash; `j` is the position behind that byte.
escaped_char : Reader → ℕ → Bytes → ℕ → Written ℕ
unfolding unicode_escape flush unescape
escaped_char r j out c =
    if c == b'u'
    then unicode_escape r j out (read_u4 r j)
    else if not (has_flag c c_vec)
    then (err (invalid_escaped_char c), r, out)
    else flush r j j out (unescape c)

unfoldable pub handle_escaped : Reader → ℕ → Bytes → Written ℕ
unfolding escaped_char
handle_escaped r j out =
    if leb r.l j
    then (err eof, r, out)
    else elim (index r.s j) [ err e ↦ (err e, r, out) | ok c ↦ escaped_char r (j + 1) out c ]

-- At the closing quote, `j` being the position behind it.
close_quote : Reader → ℕ → Bytes → Written (Unit {0})
unfolding pending
close_quote r j out = if j == r.i then (ok tt, r, out) else elim (pending r j 1) [
  | err e ↦ (err e, r, out)
  | ok run ↦ (ok tt, record r { i = j }, out ++ run)
]

-- A round of the loop of `SliceString`: it goes on with a reader, a position and `out`, or returns.
pub data Round : Type 0 where
  again : Reader → ℕ → Bytes → Round
  finish : Written (Unit {0}) → Round

after_escape : Written ℕ → Round
after_escape (err e, r, out) = finish (err e, r, out)
after_escape (ok j, r, out) = again r j out

-- At the byte that `scanString` stopped at.
at_special : Reader → Bytes → ℕ × ℕ → Round
at_special r out (j, c) =
    if c == b'"'
    then finish (close_quote r j out)
    else if c == b'\\'
    then after_escape (handle_escaped r j out)
    else if has_flag c c_ijc
    then finish (err (invalid_json_char c), r, out)
    else again r j out

slice_round : Reader → ℕ → Bytes → Round
slice_round r j out =
    if leb r.l j then finish (err eof, r, out) else at_special r out (scan_string r.s j)

-- The fuel bounds the rounds.
slice_loop : ℕ → Reader → ℕ → Bytes → Written (Unit {0})
slice_loop zero r j out = (err no_fuel, r, out)
slice_loop (suc fuel) r j out = elim (slice_round r j out) [
  | again r' j' out' ↦ slice_loop fuel r' j' out'
  | finish w ↦ w
]

-- Each round but the last moves `j` on, so that there are no more rounds than bytes.
unfoldable pub slice_string : Reader → Bytes → Written (Unit {0})
unfolding slice_loop slice_round at_special scan_string close_quote handle_escaped after_escape
slice_string r out = slice_loop (suc (length r.s)) r r.i out
