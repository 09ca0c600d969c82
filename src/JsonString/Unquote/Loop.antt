-- ===== src/JsonString/Unquote/Loop.antt =====
-- What the second loop of `UnquoteBytes` makes of the pieces of a string body.
use mathlib.Core.Path.{subst}
use ffjson.Go.Utf16
use ffjson.Go.Utf8.{rune_self, decode_rune, encode_rune}
use ffjson.Go.Utf8.WellFormed.{AllHigh, Front}
use ffjson.JsonString.Body.{Grammar}
use ffjson.JsonString.Unquote.{
  number_rune, getu4, unquote_rune, unquote_escape, unquote_round, unquote_loop,
}
use ffjson.Number.Atoi.Spec.{value}
use ffjson.Number.Atoi.Uint.{parse_uint_complete}
use ffjson.Reader.Strings.Decodes.{Escapes, Spells4}
use ffjson.Reader.Strings.Escapes.{four_small}
use ffjson.Tables.{string_special}
use mathlib.Core.List.{cons-ne-nil}
use ffjson.Prelude.{
  ℕ, zero, suc, ◌%◌, ◌^◌, ◌≤◌, ◌<◌, ◌≡◌, refl, sym, ap, ◌∙◌, false, ◌||◌, some, [], ◌∷◌, ◌++◌,
  append_assoc, append-nil, ltb, lt→ltb, ◌==◌, Bytes, length, length-append, drop, arith,
}

-- The loop appends `d` at the text, given a round or more for each byte.
abbrev pub Unquotes : Bytes → Bytes → Type 0
Unquotes body d =
    (fuel : ℕ) (out : Bytes) → length body ≤ fuel → unquote_loop fuel body out ≡ some (out ++ d)

Unquotes-round :
    (c : ℕ) (t0 t w d : Bytes)
    → unquote_round c t0 ≡ some (w, t)
    → length t ≤ length t0
    → Unquotes t d
    → Unquotes (c ∷ t0) (w ++ d)
unfolding unquote_loop
Unquotes-round c t0 t w d e le k zero out enough = absurd (omega arith)
Unquotes-round c t0 t w d e le k (suc fuel) out enough =
    rw (unquote_loop, e) (k fuel (out ++ w) (omega arith) ∙ rw (append_assoc out w d) refl)

drop-prefix : (a t : Bytes) → drop (length a) (a ++ t) ≡ t
drop-prefix [] t = refl
drop-prefix (c ∷ a) t = drop-prefix a t

unquote_round-front :
    (p : ℕ × ℕ) (front t : Bytes) (c : ℕ) (fr : Bytes)
    → front ≡ c ∷ fr
    → 128 ≤ c
    → decode_rune (c ∷ (fr ++ t)) ≡ p
    → encode_rune p.0 ≡ front
    → p.1 ≡ length front
    → unquote_round c (fr ++ t) ≡ some (front, t)
unfolding unquote_round
unquote_round-front p front t c fr is high again encoded size =
    let not_slash : (c == b'\\') ≡ false = ground arith in
    let not_control : (c == b'"' || ltb c b' ') ≡ false = ground arith in
    let wide : ltb c rune_self ≡ false = ground arith in
    let dropped : drop (length front) (c ∷ (fr ++ t)) ≡ t = rw is (drop-prefix fr t) in
    rw (not_slash, not_control, wide, again, encoded, size, dropped) refl

Unquotes-front :
    (s : Bytes) (p : ℕ × ℕ) (f : Front s p) (t d : Bytes)
    → Unquotes t d
    → Unquotes (f.front ++ t) (f.front ++ d)
Unquotes-front s p f t d k = by_front f.front refl
  where
    by_front : (front : Bytes) → front ≡ f.front → Unquotes (front ++ t) (front ++ d)
    by_front [] e = absurd (omega (arith, ap length e, f.several))
    by_front (c ∷ fr) e =
        let high : AllHigh (c ∷ fr) = subst AllHigh (sym e) f.high in
        let again : decode_rune (c ∷ (fr ++ t)) ≡ p =
          ap (λ (x : Bytes). decode_rune (x ++ t)) e ∙ f.again t in
        Unquotes-round c (fr ++ t) t (c ∷ fr) d
          (unquote_round-front p (c ∷ fr) t c fr refl high.0 again (f.encoded ∙ sym e)
            (f.size ∙ sym (ap length e)))
          (omega (arith, length-append fr t)) k

Unquotes-plain :
    (c : ℕ) (t d : Bytes)
    → c < 128
    → string_special c ≡ false
    → Unquotes t d
    → Unquotes (c ∷ t) (c ∷ d)
Unquotes-plain c t d small plain k = Unquotes-round c t t (c ∷ []) d passed (omega arith) k
  where
    passed : unquote_round c t ≡ some (c ∷ [], t)
    passed =
        let not_slash : (c == b'\\') ≡ false = ground arith in
        let not_control : (c == b'"' || ltb c b' ') ≡ false = ground arith in
        unfold unquote_round in rw (not_slash, not_control, lt→ltb c rune_self small) refl

unquote_escape-Escapes :
    (c b : ℕ) (t : Bytes) → Escapes c b → unquote_escape (c ∷ t) ≡ some (b ∷ [], t)
unfolding unquote_escape
unquote_escape-Escapes c b t esc = ground arith

unquote_round-slash : (t : Bytes) → unquote_round b'\\' t ≡ unquote_escape t
unfolding unquote_round
unquote_round-slash t = refl

getu4-Spells4 :
    (h1 h2 h3 h4 u : ℕ) (t : Bytes)
    → Spells4 h1 h2 h3 h4 u
    → getu4 (b'\\' ∷ b'u' ∷ h1 ∷ h2 ∷ h3 ∷ h4 ∷ t) ≡ some u
unfolding getu4 number_rune
getu4-Spells4 h1 h2 h3 h4 u t (digits, is) =
    let small = four_small h1 h2 h3 h4 digits in
    let long : ltb (suc (suc (suc (suc (suc (suc (length t))))))) 6 ≡ false = ground arith in
    rw
      (
        long,
        parse_uint_complete (h1 ∷ h2 ∷ h3 ∷ h4 ∷ []) 16 64 (cons-ne-nil _ _) (omega arith)
            (omega arith) (omega arith) (omega arith) digits,
        lt→ltb (value 16 0 (h1 ∷ h2 ∷ h3 ∷ h4 ∷ [])) (2 ^ 64) (omega (arith, small)),
      )
      (ap some (whole_rune small is))
  where
    whole_rune : {n : ℕ} → n < 2 ^ 16 → n ≡ u → n % 2 ^ 32 ≡ u
    whole_rune small e = omega arith

unquote_escape-unicode :
    (h1 h2 h3 h4 u : ℕ) (t : Bytes)
    → Spells4 h1 h2 h3 h4 u
    → Utf16.is_surrogate u ≡ false
    → unquote_escape (b'u' ∷ h1 ∷ h2 ∷ h3 ∷ h4 ∷ t) ≡ some (encode_rune u, t)
unfolding unquote_escape unquote_rune
unquote_escape-unicode h1 h2 h3 h4 u t sp low = rw (getu4-Spells4 h1 h2 h3 h4 u t sp, low) refl

pub Unquotes-Grammar : Grammar Unquotes
Unquotes-Grammar = record {
  done = λ fuel out le. unfold unquote_loop in rw (append-nil out) refl;
  plain = Unquotes-plain;
  front = Unquotes-front;
  escape = λ c b t d esc k.
      Unquotes-round b'\\' (c ∷ t) t (b ∷ []) d
        (unquote_round-slash (c ∷ t) ∙ unquote_escape-Escapes c b t esc) (omega arith) k;
  unicode = λ h1 h2 h3 h4 u t d sp low k.
      Unquotes-round b'\\' (b'u' ∷ h1 ∷ h2 ∷ h3 ∷ h4 ∷ t) t (encode_rune u) d
        (unquote_round-slash (b'u' ∷ h1 ∷ h2 ∷ h3 ∷ h4 ∷ t)
          ∙ unquote_escape-unicode h1 h2 h3 h4 u t sp low)
        (omega arith) k;
}
