-- ===== src/JsonString/Unquote/Errors.antt =====
-- `UnquoteBytes` refuses a quote or a control character inside a string.
use ffjson.Go.Utf8.{rune_self}
use ffjson.JsonString.Unquote.{
  unquote_round, unquote_loop, usual_round, usual_loop, unquote_from, unquote_bytes,
}
use ffjson.JsonString.Unquote.RoundTrip.{unquote_bytes-unquote_inside}
use ffjson.Tables.{string_special}
use ffjson.Prelude.{
  ℕ, zero, suc, ◌<◌, ◌≡◌, refl, ◌∙◌, Bool, true, false, ◌||◌, none, some, [], ◌∷◌, ◌++◌,
  append_assoc, append-nil, ltb, lt→ltb, ◌==◌, Bytes, length, length-append, arith,
}

-- ASCII bytes that stand for themselves.
abbrev pub AllUsual : Bytes → Type 0
AllUsual [] = Unit
AllUsual (c ∷ a) = (c < 128) × (string_special c ≡ false) × AllUsual a

-- A quote or a control character.
abbrev pub forbidden : ℕ → Bool
forbidden c = c == b'"' || ltb c b' '

usual_round-plain :
    (c : ℕ) (t : Bytes) → c < 128 → string_special c ≡ false → usual_round c t ≡ some 1
unfolding usual_round
usual_round-plain c t small plain =
    let usual : (c == b'\\' || c == b'"' || ltb c b' ') ≡ false = ground arith in
    rw (usual, lt→ltb c rune_self small) refl

usual_round-forbidden : (c : ℕ) (t : Bytes) → forbidden c ≡ true → usual_round c t ≡ none
unfolding usual_round
usual_round-forbidden c t bad =
    let special : (c == b'\\' || c == b'"' || ltb c b' ') ≡ true = ground arith in rw special refl

unquote_round-forbidden : (c : ℕ) (t : Bytes) → forbidden c ≡ true → unquote_round c t ≡ none
unfolding unquote_round
unquote_round-forbidden c t bad =
    let not_slash : (c == b'\\') ≡ false = ground arith in rw (not_slash, bad) refl

usual_loop-AllUsual :
    (fuel : ℕ) (run a : Bytes) (c : ℕ) (t : Bytes)
    → length a < fuel
    → AllUsual a
    → forbidden c ≡ true
    → usual_loop fuel run (a ++ c ∷ t) ≡ (run ++ a, c ∷ t)
unfolding usual_loop
usual_loop-AllUsual zero run a c t lt usual bad = absurd (omega arith)
usual_loop-AllUsual (suc fuel) run [] c t lt usual bad =
    rw (usual_loop, usual_round-forbidden c t bad, append-nil run) refl
usual_loop-AllUsual (suc fuel) run (x ∷ a) c t lt (small, plain, usual) bad =
    rw (usual_loop, usual_round-plain x (a ++ c ∷ t) small plain)
      (usual_loop-AllUsual fuel (run ++ x ∷ []) a c t (omega arith) usual bad
        ∙ rw (append_assoc run (x ∷ []) a) refl)

unquote_loop-forbidden :
    (fuel : ℕ) (c : ℕ) (t out : Bytes) → forbidden c ≡ true → unquote_loop fuel (c ∷ t) out ≡ none
unfolding unquote_loop
unquote_loop-forbidden zero c t out bad = refl
unquote_loop-forbidden (suc fuel) c t out bad =
    rw (unquote_loop, unquote_round-forbidden c t bad) refl

-- `UnquoteBytes` of a quoted text with a quote or a control character in it, behind ASCII bytes that
-- stand for themselves, returns false, whatever follows.
pub unquote_bytes-forbidden :
    (a : Bytes) (c : ℕ) (t : Bytes)
    → AllUsual a
    → forbidden c ≡ true
    → unquote_bytes (b'"' ∷ ((a ++ c ∷ t) ++ b'"' ∷ [])) ≡ none
unfolding unquote_from
unquote_bytes-forbidden a c t usual bad =
    unquote_bytes-unquote_inside (a ++ c ∷ t)
    ∙ rw
        (usual_loop-AllUsual (length (a ++ c ∷ t)) [] a c t (omega (arith, length-append a (c ∷ t)))
          usual bad)
        (unquote_loop-forbidden (length (a ++ c ∷ t)) c t a bad)
