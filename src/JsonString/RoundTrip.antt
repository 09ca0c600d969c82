-- ===== src/JsonString/RoundTrip.antt =====
-- `WriteJson` (jsonstring.go) and the reading of what it writes by `SliceString` (reader.go).
use ffjson.JsonString.Coerce.{coerce, IsUtf8, coerce-IsUtf8}
use ffjson.JsonString.{write_json}
use ffjson.Outcome.{ok}
use ffjson.Reader.Strings.Complete.{slice_string-Decodes}
use ffjson.Reader.Strings.Decodes.{AllPlain, Decodes, Decodes-append}
use ffjson.Go.Utf8.WellFormed.{AllHigh}
use ffjson.JsonString.Body.{Grammar}
use ffjson.JsonString.Written.{write_json-Grammar}
use ffjson.Reader.Strings.{slice_string}
use ffjson.Reader.{Reader}
use ffjson.Prelude.{
  ℕ, ◌+◌, ◌≡◌, refl, ap, ◌∙◌, [], ◌∷◌, ◌++◌, append_assoc, arith, Bytes, length, length-append,
  drop, drop_next,
}

AllHigh-AllPlain : (a : Bytes) → AllHigh a → AllPlain a
AllHigh-AllPlain [] h = tt
AllHigh-AllPlain (c ∷ a) (hc, h) = (ground arith, AllHigh-AllPlain a h)

Decodes-Grammar : Grammar Decodes
Decodes-Grammar = record {
  done = Decodes.done;
  plain = λ c t d small special k. Decodes.plain special k;
  front = λ s p f t d k. Decodes-append f.front (AllHigh-AllPlain f.front f.high) k;
  escape = λ c b t d esc k. Decodes.escape esc k;
  unicode = λ h1 h2 h3 h4 u t d sp low k. Decodes.unicode sp low k;
}

drop-prefix : (pre t : Bytes) → drop (length pre) (pre ++ t) ≡ t
drop-prefix [] t = refl
drop-prefix (c ∷ pre) t = drop-prefix pre t

regroup : (body rest : Bytes) → b'"' ∷ (body ++ b'"' ∷ []) ++ rest ≡ b'"' ∷ (body ++ b'"' ∷ rest)
regroup body rest = rw append_assoc

behind_quote :
    (r : Reader) (pre body rest : Bytes)
    → r.s ≡ pre ++ b'"' ∷ (body ++ b'"' ∷ rest)
    → r.i ≡ length pre + 1
    → drop r.i r.s ≡ body ++ b'"' ∷ rest
behind_quote r pre body rest text at =
    ap (λ (i : ℕ). drop i r.s) at
    ∙ drop_next r.s (length pre) (ap (drop (length pre)) text ∙ drop-prefix pre _)

-- `SliceString` reads back what `WriteJson` wrote, for every text: with the reader behind the opening
-- quote of the string, and its limit `l` the length of the slice, it returns no error, appends the
-- text with each byte that is not part of well-formed UTF-8 replaced by U+FFFD, and leaves the reader
-- behind the closing quote.
pub slice_string-write_json :
    (r : Reader) (pre s rest out : Bytes)
    → r.l ≡ length r.s
    → r.s ≡ pre ++ (write_json [] s ++ rest)
    → r.i ≡ length pre + 1
    → slice_string r out
      ≡ (ok tt, record r { i = length pre + length (write_json [] s) }, out ++ coerce s)
slice_string-write_json r pre s rest out whole text at =
    let (body, written, k) = write_json-Grammar Decodes Decodes-Grammar [] s in
    let text' = text ∙ ap (λ t. pre ++ (t ++ rest)) written ∙ ap (◌++◌ pre) (regroup body rest) in
    let size : r.i + length body + 1 ≡ length pre + length (write_json [] s) =
      omega (arith, ap length written, length-append body (b'"' ∷ [])) in
    slice_string-Decodes r rest out whole k (behind_quote r pre body rest text' at)
    ∙ ap (λ i. (ok tt, record r { i = i }, out ++ coerce s)) size

-- Well-formed UTF-8 comes through `WriteJson` and `SliceString` unchanged, with the reader behind the
-- opening quote and its limit `l` the length of the slice.
pub slice_string-write_json_utf8 :
    (r : Reader) (pre s rest out : Bytes)
    → r.l ≡ length r.s
    → r.s ≡ pre ++ (write_json [] s ++ rest)
    → r.i ≡ length pre + 1
    → IsUtf8 s
    → slice_string r out ≡ (ok tt, record r { i = length pre + length (write_json [] s) }, out ++ s)
slice_string-write_json_utf8 r pre s rest out whole text at valid =
    slice_string-write_json r pre s rest out whole text at ∙ rw (coerce-IsUtf8 valid)
