-- ===== src/Tests.antt =====
-- Runs of the model on small inputs, and each theorem at an input that meets its hypotheses.
use ffjson.JsonString.{write_json}
use ffjson.JsonString.Coerce.{coerce, IsUtf8}
use ffjson.JsonString.Unquote.{unquote_bytes}
use ffjson.JsonString.Unquote.Errors.{unquote_bytes-forbidden}
use ffjson.JsonString.Unquote.RoundTrip.{unquote_bytes-write_json}
use ffjson.JsonString.RoundTrip.{slice_string-write_json, slice_string-write_json_utf8}
use ffjson.Number.Atoi
use ffjson.Number.Atoi.{NumResult, NumError, err_range, err_syntax, max_u64, max_val, neg64}
use ffjson.Number.Atoi.Int.{signed_value, parse_int_complete}
use ffjson.Number.Atoi.Spec.{AllDigits, value}
use ffjson.Number.Atoi.Uint.{range_error, parse_uint_complete, parse_uint_sound}
use ffjson.Number.ByteNum
use ffjson.Number.ByteNum.{fast_path_agrees}
use ffjson.Number.Iota.{format_bits2}
use ffjson.Number.Iota.RoundTrip.{
  parse_uint-format_bits2, parse_int-format_bits2, parse_uint-format_bits2_small,
}
use ffjson.Outcome.{ok}
use ffjson.Reader.{Reader}
use ffjson.Reader.Strings.Complete.{slice_string-Decodes}
use ffjson.Reader.Strings.Decodes.{Decodes}
use ffjson.Reader.Strings.{slice_string}
use mathlib.Core.List.{cons-ne-nil}
use ffjson.Tables.{has_flag}
use ffjson.Tags.{contains, contains-pieces, has_piece, pieces}
use ffjson.Prelude.{
  ◌+◌, ◌-◌, ◌^◌, ◌≤◌, ◌<◌, ◌≡◌, ◌≢◌, refl, true, false, inl, inr, none, some, [], ◌∷◌, ◌++◌, arith,
  ltb, leb, if◌then◌else◌, Bytes, codes, length,
}

-- The reader behind the opening quote.
abbrev quoted_reader : Reader
quoted_reader = record { s = codes "\"a\\n\"]"; i = 1; l = 6 }

abbrev body_decodes : Decodes (codes "a\\n") (codes "a\n")
body_decodes =
    Decodes.plain refl
      (Decodes.escape (inr (inr (inr (inr (inr (inl (refl, refl))))))) Decodes.done)

slice_string-Decodes_example :
    slice_string quoted_reader [] ≡ (ok tt, record quoted_reader { i = 5 }, codes "a\n")
slice_string-Decodes_example =
    slice_string-Decodes quoted_reader (codes "]") [] refl body_decodes refl

slice_string_run :
    slice_string quoted_reader [] ≡ (ok tt, record quoted_reader { i = 5 }, codes "a\n")
unfolding slice_string has_flag
slice_string_run = refl

written_text : write_json [] (codes "a\n<") ≡ codes "\"a\\n\\u003c\""
unfolding write_json
written_text = refl

abbrev written_reader : Reader
written_reader = record { s = codes " \"hi\"]"; i = 2; l = 6 }

written_bytes : codes " \"hi\"]" ≡ codes " " ++ (write_json [] (codes "hi") ++ codes "]")
unfolding write_json
written_bytes = refl

slice_string-write_json_example : slice_string written_reader [] ≡ (
  ok tt,
  record written_reader { i = 1 + length (write_json [] (codes "hi")) },
  coerce (codes "hi"),
)
slice_string-write_json_example =
    slice_string-write_json written_reader (codes " ") (codes "hi") (codes "]") [] refl
      written_bytes refl

abbrev hi_utf8 : IsUtf8 (codes "hi")
hi_utf8 = IsUtf8.one (omega arith) (IsUtf8.one (omega arith) IsUtf8.end)

slice_string-write_json_utf8_example :
    slice_string written_reader []
    ≡ (ok tt, record written_reader { i = 1 + length (write_json [] (codes "hi")) }, codes "hi")
slice_string-write_json_utf8_example =
    slice_string-write_json_utf8 written_reader (codes " ") (codes "hi") (codes "]") [] refl
      written_bytes refl hi_utf8

parse_uint_complete_example : Atoi.parse_uint (codes "ff") 16 8 ≡ (
    if ltb (value 16 0 (codes "ff")) (2 ^ 8)
    then (value 16 0 (codes "ff"), none)
    else (max_u64, some (range_error (codes "ff"))))
parse_uint_complete_example =
    parse_uint_complete (codes "ff") 16 8 (cons-ne-nil _ _) (omega arith) (omega arith)
      (omega arith) (omega arith) (omega arith)

parse_uint_run : Atoi.parse_uint (codes "12") 10 64 ≡ (12, none)
unfolding Atoi.parse_uint max_val
parse_uint_run = refl

parse_uint_sound_example :
    (codes "12" ≢ []) × AllDigits 10 (codes "12") × (12 ≡ value 10 0 (codes "12")) × (12 < 2 ^ 64)
parse_uint_sound_example =
    parse_uint_sound (codes "12") 10 64 12 (omega arith) (omega arith) (omega arith) (omega arith)
      parse_uint_run

parse_int_complete_example :
    (Atoi.parse_int (codes "128") 10 8
      ≡ signed_value (codes "128") 8 false (value 10 0 (codes "128")))
    × (Atoi.parse_int (codes "+128") 10 8
        ≡ signed_value (codes "+128") 8 false (value 10 0 (codes "128")))
    × (Atoi.parse_int (codes "-128") 10 8
        ≡ signed_value (codes "-128") 8 true (value 10 0 (codes "128")))
parse_int_complete_example =
    parse_int_complete (codes "128") 10 8 (omega arith) (omega arith) (omega arith) (omega arith)
      (cons-ne-nil _ _) (omega arith)

parse_uint-format_bits2_example :
    (t : Bytes) × (format_bits2 (codes "n:") 255 16 false ≡ some (codes "n:" ++ t))
    × (length t ≤ 64)
    × (Atoi.parse_uint t 16 64 ≡ (255, none))
parse_uint-format_bits2_example =
    parse_uint-format_bits2 (codes "n:") 16 255 (omega arith) (omega arith) (omega arith)
      (inl (omega arith))

parse_int-format_bits2_example :
    (t : Bytes) × (format_bits2 [] (2 ^ 64 - 5) 10 (leb (2 ^ 63) (2 ^ 64 - 5)) ≡ some ([] ++ t))
    × (length t ≤ 65)
    × (Atoi.parse_int t 10 64 ≡ (2 ^ 64 - 5, none))
parse_int-format_bits2_example =
    parse_int-format_bits2 [] 10 (2 ^ 64 - 5) (omega arith) (omega arith) (omega arith)
      (inr (inr refl))

parse_uint-format_bits2_small_example :
    (t : Bytes) × (format_bits2 [] 2 2 false ≡ some ([] ++ t))
    × (Atoi.parse_uint t 2 64 ≢ (2, none))
parse_uint-format_bits2_small_example =
    parse_uint-format_bits2_small [] 2 2 (omega arith) (omega arith) (omega arith) (omega arith)
      (inl (omega arith))

format_run : format_bits2 [] 1234567 10 false ≡ some (codes "1234567")
unfolding format_bits2
format_run = refl

fast_path_agrees_example :
    (ByteNum.parse_uint (codes "7") 10 64 ≡ Atoi.parse_uint (codes "7") 10 64)
    × (ByteNum.parse_int (codes "7") 10 64 ≡ Atoi.parse_int (codes "7") 10 64)
fast_path_agrees_example =
    fast_path_agrees (codes "7") 10 64 (omega arith) (omega arith) (omega arith) (omega arith)

-- A broken sequence in front of an escape.
abbrev odd_text : Bytes
odd_text = 0xE2 ∷ 0x84 ∷ codes "\n"

unquote_bytes-write_json_example : unquote_bytes (write_json [] odd_text) ≡ some (coerce odd_text)
unquote_bytes-write_json_example = unquote_bytes-write_json odd_text

string_named : codes "string" ≢ []
string_named h = cc

contains-pieces_example :
    contains (codes "omitempty,,string") (codes "string")
    ≡ has_piece (codes "string") (pieces (codes "omitempty,,string"))
contains-pieces_example = contains-pieces (codes "omitempty,,string") (codes "string") string_named

unquote_bytes-forbidden_example : unquote_bytes (codes "\"ab\"c\"") ≡ none
unquote_bytes-forbidden_example =
    unquote_bytes-forbidden (codes "ab") b'"' (codes "c") (ground arith) refl
