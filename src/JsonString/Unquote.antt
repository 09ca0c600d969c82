-- ===== src/JsonString/Unquote.antt =====
-- fflib/v1/jsonstring.go: `UnquoteBytes` and `getu4`. In the loops, what has been read is gone from the
-- text and `out` is `b[0:w]`, of which `b` always has room for one rune more. Where the code returns
-- false there is no result. `strconv.ParseUint` is the code that internal/atoi.go is a copy of.
pub mod Loop
pub mod RoundTrip
pub mod Errors
use ffjson.Go.Utf16
use ffjson.Go.Utf8.{rune_error, rune_self, decode_rune, encode_rune}
use ffjson.Number.Atoi
use ffjson.Number.Atoi.{NumResult}
use ffjson.Prelude.{
  ℕ, zero, suc, ◌+◌, ◌-◌, ◌%◌, ◌^◌, Bool, true, false, not, ◌&&◌, ◌||◌, Option, none, some, [], ◌∷◌,
  ◌++◌, ltb, ◌==◌, if◌then◌else◌, Bytes, get_or, length, drop, take, slice,
}

-- `rune(r)`, `none` being -1.
pub number_rune : NumResult → Option ℕ
number_rune (r, none) = some (r % 2 ^ 32)
number_rune (r, some e) = none

unfoldable pub getu4 : Bytes → Option ℕ
unfolding number_rune
getu4 s =
    if ltb (length s) 6 || not (get_or s 0 0 == b'\\') || not (get_or s 1 0 == b'u')
    then none
    else number_rune (Atoi.parse_uint (slice s 2 6) 16 64)

-- `utf16.DecodeRune(rr, rr1)`, where -1 is no half of a pair.
pub half_pair : ℕ → Option ℕ → ℕ
half_pair rr none = rune_error
half_pair rr (some rr1) = Utf16.decode_rune rr rr1

-- Behind the first half of a pair: what is written, and what is left.
pub unquote_pair : ℕ → Bytes → Bytes × Bytes
unfolding half_pair
unquote_pair rr rest =
    let dec = half_pair rr (getu4 rest) in
    if not (dec == rune_error)
    then (encode_rune dec, drop 6 rest)
    else (encode_rune rune_error, rest)

-- `\u`, `s` being the text from its backslash on and the rune what `getu4` gave.
pub unquote_rune : Bytes → Option ℕ → Option (Bytes × Bytes)
unfolding unquote_pair
unquote_rune s none = none
unquote_rune s (some rr) =
    if Utf16.is_surrogate rr
    then some (unquote_pair rr (drop 6 s))
    else some (encode_rune rr, drop 6 s)

-- The switch behind a backslash.
pub unquote_escape : Bytes → Option (Bytes × Bytes)
unfolding unquote_rune
unquote_escape [] = none
unquote_escape (c ∷ t) =
    if c == b'"' || c == b'\\' || c == b'/' || c == b'\''
    then some (c ∷ [], t)
    else if c == b'b'
    then some (8 ∷ [], t)
    else if c == b'f'
    then some (12 ∷ [], t)
    else if c == b'n'
    then some (b'\n' ∷ [], t)
    else if c == b'r'
    then some (b'\r' ∷ [], t)
    else if c == b't'
    then some (b'\t' ∷ [], t)
    else if c == b'u'
    then unquote_rune (b'\\' ∷ c ∷ t) (getu4 (b'\\' ∷ c ∷ t))
    else none

-- A round of the second loop.
pub unquote_round : ℕ → Bytes → Option (Bytes × Bytes)
unfolding unquote_escape
unquote_round c t =
    if c == b'\\'
    then unquote_escape t
    else if c == b'"' || ltb c b' '
    then none
    else if ltb c rune_self
    then some (c ∷ [], t)
    else (let (rr, size) = decode_rune (c ∷ t) in some (encode_rune rr, drop size (c ∷ t)))

-- Each round takes a byte or more, so that one round for each byte is enough.
pub unquote_loop : ℕ → Bytes → Bytes → Option Bytes
unfolding unquote_round
unquote_loop fuel [] out = some out
unquote_loop zero (c ∷ t) out = none
unquote_loop (suc fuel) (c ∷ t) out = elim (unquote_round c t) [
  | none ↦ none
  | some p ↦ unquote_loop fuel p.1 (out ++ p.0)
]

-- A round of the first loop, over bytes that need no unquoting: how many it passes.
pub usual_round : ℕ → Bytes → Option ℕ
usual_round c t =
    if c == b'\\' || c == b'"' || ltb c b' '
    then none
    else if ltb c rune_self
    then some 1
    else (let (rr, size) = decode_rune (c ∷ t) in
        if rr == rune_error && size == 1 then none else some size)

-- The first loop: `s[:r]` and `s[r:]`.
pub usual_loop : ℕ → Bytes → Bytes → Bytes × Bytes
unfolding usual_round
usual_loop fuel run [] = (run, [])
usual_loop zero run (c ∷ t) = (run, c ∷ t)
usual_loop (suc fuel) run (c ∷ t) = elim (usual_round c t) [
  | none ↦ (run, c ∷ t)
  | some n ↦ usual_loop fuel (run ++ take n (c ∷ t)) (drop n (c ∷ t))
]

-- Between the two loops.
pub unquote_from : Bytes → Bytes × Bytes → Option Bytes
unfolding unquote_loop
unquote_from s (run, []) = some s
unquote_from s (run, c ∷ t) = unquote_loop (length s) (c ∷ t) run

abbrev pub unquote_inside : Bytes → Option Bytes
unquote_inside s = unquote_from s (usual_loop (length s) [] s)

unfoldable pub unquote_bytes : Bytes → Option Bytes
unfolding unquote_from usual_loop
unquote_bytes s =
    if ltb (length s) 2 || not (get_or s 0 0 == b'"') || not (get_or s (length s - 1) 0 == b'"')
    then none
    else unquote_inside (slice s 1 (length s - 1))
