-- ===== src/JsonString/Unquote/RoundTrip.antt =====
-- `UnquoteBytes` reads back what `WriteJson` wrote.
use mathlib.Core.Path.{subst}
use ffjson.Go.Utf8.{rune_error, rune_self, decode_rune, encode_rune}
use ffjson.Go.Utf8.WellFormed.{Front, decode_rune-Front}
use ffjson.JsonString.{write_json}
use ffjson.JsonString.Coerce.{coerce}
use ffjson.JsonString.Unquote.{
  unquote_round, unquote_loop, usual_round, usual_loop, unquote_from, unquote_inside, unquote_bytes,
}
use ffjson.JsonString.Unquote.Loop.{Unquotes, Unquotes-Grammar}
use ffjson.JsonString.Written.{write_json-Grammar}
use ffjson.Prelude.{
  ℕ, zero, suc, ◌+◌, ◌-◌, ◌≤◌, ◌≡◌, ◌≢◌, inl, inr, refl, sym, ap, ◌∙◌, false, ◌&&◌, ◌||◌, none,
  some, [], ◌∷◌, ◌++◌, append_assoc, append-nil, ltb, ltb-false, ◌==◌, Bytes, get_or, length,
  length-append, drop, take, take-drop, take-append, slice, slice-append, arith, Bool-cases,
  Option-cases,
}

-- The bytes that the first loop passes are those that the second would write.
wide_round :
    (c n : ℕ) (t : Bytes)
    → ltb c rune_self ≡ false
    → (r : ℕ) → decode_rune (c ∷ t) ≡ (r, n)
    → (r == rune_error && n == 1) ≡ false
    → encode_rune r ≡ take n (c ∷ t)
wide_round c n t wide r e fine =
    let f : Front (c ∷ t) (r, n) =
      subst (Front (c ∷ t)) e (decode_rune-Front c t (ltb-false c rune_self wide) well_formed) in
    f.encoded ∙ sym (ap (take n) f.splits ∙ rw f.size (take-append f.front f.rest))
  where
    well_formed : decode_rune (c ∷ t) ≢ (rune_error, 1)
    well_formed x =
        let r_is : r ≡ rune_error = sym (ap (λ (p : ℕ × ℕ). p.0) e) ∙ ap (λ (p : ℕ × ℕ). p.0) x in
        let n_is : n ≡ 1 = sym (ap (λ (p : ℕ × ℕ). p.1) e) ∙ ap (λ (p : ℕ × ℕ). p.1) x in
        ground arith

usual_round-unquote_round :
    (c n : ℕ) (t : Bytes)
    → usual_round c t ≡ some n
    → unquote_round c t ≡ some (take n (c ∷ t), drop n (c ∷ t))
unfolding usual_round unquote_round
usual_round-unquote_round c n t h = elim (Bool-cases (c == b'\\' || c == b'"' || ltb c b' ')) [
  | inl special ↦ let no_n : none ≡ some n = rw special at h in cc
  | inr other ↦ elim (Bool-cases (ltb c rune_self)) [
    | inl small ↦
        let one : some 1 ≡ some n = rw (other, small) at h in
        let n_is : 1 ≡ n = some_inj one in
        rw (← n_is, not_slash other, not_control other, small) refl
    | inr wide ↦
        let d = decode_rune (c ∷ t) in
        elim (Bool-cases (d.0 == rune_error && d.1 == 1)) [
          | inl bad ↦ let no_n : none ≡ some n = rw (other, wide, bad) at h in cc
          | inr fine ↦
              let size : some d.1 ≡ some n = rw (other, wide, fine) at h in
              let n_is : d.1 ≡ n = some_inj size in
              rw
                (
                  ← n_is,
                  not_slash other,
                  not_control other,
                  wide,
                  wide_round c d.1 t wide d.0 refl fine,
                )
                refl
        ]
  ]
]
  where
    some_inj : {a b : ℕ} → some a ≡ some b → a ≡ b
    some_inj e = cc

    not_slash : (c == b'\\' || c == b'"' || ltb c b' ') ≡ false → (c == b'\\') ≡ false
    not_slash e = ground arith

    not_control :
        (c == b'\\' || c == b'"' || ltb c b' ') ≡ false → (c == b'"' || ltb c b' ') ≡ false
    not_control e = ground arith

-- Given `bound` rounds or more, the second loop ends with `res`.
abbrev Ends : ℕ → Bytes → Bytes × Bytes → Type 0
Ends bound res (run, rest) = (f : ℕ) → bound ≤ f → unquote_loop f rest run ≡ some res

usual_loop-Ends :
    (bound : ℕ) (res : Bytes) (fuel : ℕ) (run rest : Bytes)
    → Ends bound res (run, rest)
    → Ends bound res (usual_loop fuel run rest)
      × ((usual_loop fuel run rest).0 ++ (usual_loop fuel run rest).1 ≡ run ++ rest)
unfolding usual_loop unquote_loop
usual_loop-Ends bound res fuel run [] h = (h, refl)
usual_loop-Ends bound res zero run (c ∷ t) h = (h, refl)
usual_loop-Ends bound res (suc fuel) run (c ∷ t) h = elim (Option-cases (usual_round c t)) [
  | inl stop ↦ rw (usual_loop, stop) (h, refl)
  | inr (n, go) ↦
      let later = λ (f : ℕ) (le : bound ≤ f).
        rw (unquote_loop, usual_round-unquote_round c n t go) at (h (suc f) (omega (arith, le))) in
      let (ends, whole) =
        usual_loop-Ends bound res fuel (run ++ take n (c ∷ t)) (drop n (c ∷ t)) later in
      rw (usual_loop, go)
        (
          ends,
          whole
              ∙ append_assoc run (take n (c ∷ t)) (drop n (c ∷ t))
              ∙ ap (◌++◌ run) (take-drop n (c ∷ t)),
        )
]

unquote_from-Ends :
    (s res : Bytes) (p : Bytes × Bytes)
    → Ends (length s) res p
    → p.0 ++ p.1 ≡ s
    → unquote_from s p ≡ some res
unfolding unquote_from unquote_loop
unquote_from-Ends s res (run, []) h whole =
    ap some (sym whole ∙ append-nil run) ∙ h (length s) (omega arith)
unquote_from-Ends s res (run, c ∷ t) h whole = h (length s) (omega arith)

unquote_inside-Unquotes : (body d : Bytes) → Unquotes body d → unquote_inside body ≡ some d
unquote_inside-Unquotes body d k =
    let (ends, whole) = usual_loop-Ends (length body) d (length body) [] body (λ f le. k f [] le) in
    unquote_from-Ends body d (usual_loop (length body) [] body) ends whole

last_of : (a : Bytes) (c : ℕ) → get_or (a ++ c ∷ []) (length a) 0 ≡ c
last_of [] c = refl
last_of (x ∷ a) c = last_of a c

-- A body inside its quotes.
pub unquote_bytes-unquote_inside :
    (body : Bytes) → unquote_bytes (b'"' ∷ (body ++ b'"' ∷ [])) ≡ unquote_inside body
unfolding unquote_bytes
unquote_bytes-unquote_inside body =
    let text = b'"' ∷ (body ++ b'"' ∷ []) in
    let size : length text ≡ suc (suc (length body)) =
      omega (arith, length-append body (b'"' ∷ [])) in
    let long : ltb (length text) 2 ≡ false = ground arith in
    let at : length text - 1 ≡ suc (length body) = omega arith in
    let stop : length text - 1 ≡ 1 + length body = omega arith in
    let quote : get_or text (length text - 1) 0 ≡ b'"' = rw at (last_of (b'"' ∷ body) b'"') in
    let inner : slice text 1 (length text - 1) ≡ body =
      rw stop (slice-append text body (b'"' ∷ []) 1 refl) in
    rw (long, quote, inner) refl

-- `UnquoteBytes` of what `WriteJson` writes for any text returns true, and the text with each byte that
-- is not part of well-formed UTF-8 replaced by U+FFFD.
pub unquote_bytes-write_json : (s : Bytes) → unquote_bytes (write_json [] s) ≡ some (coerce s)
unquote_bytes-write_json s =
    let (body, written, k) = write_json-Grammar Unquotes Unquotes-Grammar [] s in
    ap unquote_bytes written
    ∙ unquote_bytes-unquote_inside body
    ∙ unquote_inside-Unquotes body (coerce s) k
