-- ===== src/Fold/Agrees.antt =====
-- fflib/v1/fold.go: each comparison is the equality of the two texts after folding every rune.
use ffjson.Fold.{
  right_round, equal_fold_right, ascii_loop, ascii_equal_fold, simple_loop,
  simple_letter_equal_fold,
}
use ffjson.Fold.Letters.{
  fold_rune, fold_all, runes_in, runes, IsAscii, IsBytes, IsLetters, right_same-fold,
  ascii_same-fold, letters_same-fold, special_same-fold,
}
use ffjson.Go.Utf8
use ffjson.Go.Utf8.{rune_self}
use ffjson.Go.Utf8.WellFormed.{decode_rune-wide}
use ffjson.Outcome.{ok}
use ffjson.Prelude.{
  ℕ, zero, suc, ◌≤◌, ◌<◌, ◌≡◌, refl, ap, inl, inr, Bool, true, false, ◌&&◌, ◌||◌, none, some, [],
  ◌∷◌, ltb, ltb→lt, ltb-false, ◌==◌, ==_iff, if◌then◌else◌, Bytes, bytes_eq, length, drop,
  length-drop, Bool-cases, arith,
}

-- The equality of the two texts, with the case of every letter forgotten.
unfoldable pub folds_equal : Bytes → Bytes → Bool
folds_equal s t = bytes_eq (fold_all s) (fold_all (runes t))

decode_rune-ascii : (b : ℕ) (t : Bytes) → ltb b rune_self ≡ true → Utf8.decode_rune (b ∷ t) ≡ (b, 1)
unfolding Utf8.decode_rune
decode_rune-ascii b t small = rw small refl

drop-fits :
    (n fuel : ℕ) (b : ℕ) (t : Bytes) → 0 < n → length t ≤ fuel → length (drop n (b ∷ t)) ≤ fuel
drop-fits n fuel b t some_bytes enough = omega (arith, length-drop n (b ∷ t))

right_round-fold :
    (sb tb : ℕ) (t : Bytes)
    → sb < 128
    → right_round sb (tb ∷ t) ≡ (
        if fold_rune sb == fold_rune (Utf8.decode_rune (tb ∷ t)).0
        then some (drop (Utf8.decode_rune (tb ∷ t)).1 (tb ∷ t))
        else none)
unfolding right_round
right_round-fold sb tb t s_lt = elim (Bool-cases (ltb tb rune_self)) [
  | inl small ↦
      rw
        (
          right_round,
          small,
          right_same-fold sb tb s_lt (ltb→lt tb rune_self small),
          decode_rune-ascii tb t small,
        )
        refl
  | inr wide ↦
      rw
        (
          right_round,
          wide,
          special_same-fold sb (Utf8.decode_rune (tb ∷ t)).0 s_lt (decode_rune-wide tb t wide).0,
        )
        refl
]

decode_rune-some : (b : ℕ) (t : Bytes) → 0 < (Utf8.decode_rune (b ∷ t)).1
decode_rune-some b t = elim (Bool-cases (ltb b rune_self)) [
  | inl small ↦ rw (decode_rune-ascii b t small) (omega arith)
  | inr wide ↦ (decode_rune-wide b t wide).1
]

equal_fold_right-runes :
    (s t : Bytes) (fuel : ℕ)
    → length t ≤ fuel
    → IsAscii s
    → equal_fold_right s t ≡ bytes_eq (fold_all s) (fold_all (runes_in fuel t))
unfolding equal_fold_right right_round runes_in
equal_fold_right-runes [] [] fuel enough ascii = refl
equal_fold_right-runes [] (tb ∷ t) (suc fuel) enough ascii = refl
equal_fold_right-runes [] (tb ∷ t) zero enough ascii = absurd (omega arith)
equal_fold_right-runes (sb ∷ s) [] fuel enough ascii = refl
equal_fold_right-runes (sb ∷ s) (tb ∷ t) zero enough ascii = absurd (omega arith)
equal_fold_right-runes (sb ∷ s) (tb ∷ t) (suc fuel) enough (s_lt, ascii) =
    let d = Utf8.decode_rune (tb ∷ t) in
    let rest =
      equal_fold_right-runes s (drop d.1 (tb ∷ t)) fuel
        (drop-fits d.1 fuel tb t (decode_rune-some tb t) (omega arith)) ascii in
    elim (Bool-cases (fold_rune sb == fold_rune d.0)) [
      | inl yes_same ↦ rw (equal_fold_right, right_round-fold sb tb t s_lt, yes_same) rest
      | inr not_same ↦ rw (equal_fold_right, right_round-fold sb tb t s_lt, not_same) refl
    ]

-- No letter of the text is a K or an S, which alone have a sign outside ASCII.
abbrev pub is_special : ℕ → Bool
is_special c = c == b'k' || c == b'K' || c == b's' || c == b'S'

abbrev pub IsPlain : Bytes → Type 0
IsPlain [] = Unit
IsPlain (c ∷ s) = (c < 128) × (is_special c ≡ false) × IsPlain s

plain_not_wide :
    (c r : ℕ) → c < 128 → is_special c ≡ false → 128 ≤ r → (fold_rune c == fold_rune r) ≡ false
plain_not_wide c r lt plain wide = ground arith

-- Where the first text is plain, the runes of the other may be taken for its bytes.
bytes_eq-runes :
    (s t : Bytes) (fuel : ℕ)
    → length t ≤ fuel
    → IsPlain s
    → bytes_eq (fold_all s) (fold_all (runes_in fuel t)) ≡ bytes_eq (fold_all s) (fold_all t)
unfolding runes_in
bytes_eq-runes s [] fuel enough plain = refl
bytes_eq-runes s (tb ∷ t) zero enough plain = absurd (omega arith)
bytes_eq-runes [] (tb ∷ t) (suc fuel) enough plain = refl
bytes_eq-runes (sb ∷ s) (tb ∷ t) (suc fuel) enough (lt, not_special, plain) =
    elim (Bool-cases (ltb tb rune_self)) [
      | inl small ↦
          rw (runes_in, decode_rune-ascii tb t small)
            (ap (λ (b : Bool). (fold_rune sb == fold_rune tb) && b)
              (bytes_eq-runes s t fuel (omega arith) plain))
      | inr wide ↦
          let neither = plain_not_wide sb tb lt not_special (ltb-false tb rune_self wide) in
          let nor =
            plain_not_wide sb (Utf8.decode_rune (tb ∷ t)).0 lt not_special
              (decode_rune-wide tb t wide).0 in
          rw (runes_in, nor, neither) refl
    ]

bytes_eq-length :
    (s t : Bytes) → (length s == length t) ≡ false → bytes_eq (fold_all s) (fold_all t) ≡ false
bytes_eq-length [] [] h = ground arith
bytes_eq-length [] (tb ∷ t) h = refl
bytes_eq-length (sb ∷ s) [] h = refl
bytes_eq-length (sb ∷ s) (tb ∷ t) h =
    let rest = bytes_eq-length s t (ground arith) in rw rest (ground arith)

ascii_loop-fold :
    (s t : Bytes)
    → length s ≡ length t
    → IsPlain s
    → IsBytes t
    → ascii_loop s t ≡ ok (bytes_eq (fold_all s) (fold_all t))
unfolding ascii_loop
ascii_loop-fold [] [] e plain bytes = refl
ascii_loop-fold [] (tb ∷ t) e plain bytes = absurd (omega (arith, e))
ascii_loop-fold (sb ∷ s) [] e plain bytes = absurd (omega (arith, e))
ascii_loop-fold (sb ∷ s) (tb ∷ t) e (lt, _, plain) (t_lt, bytes) =
    let same = ascii_same-fold sb tb (omega arith) t_lt in
    elim (Bool-cases (fold_rune sb == fold_rune tb)) [
      | inl yes_same ↦
          rw (ascii_loop, same, yes_same) (ascii_loop-fold s t (omega (arith, e)) plain bytes)
      | inr not_same ↦ rw (ascii_loop, same, not_same) refl
    ]

simple_loop-fold :
    (s t : Bytes)
    → length s ≡ length t
    → IsLetters s
    → IsBytes t
    → simple_loop s t ≡ ok (bytes_eq (fold_all s) (fold_all t))
unfolding simple_loop
simple_loop-fold [] [] e letters bytes = refl
simple_loop-fold [] (tb ∷ t) e letters bytes = absurd (omega (arith, e))
simple_loop-fold (sb ∷ s) [] e letters bytes = absurd (omega (arith, e))
simple_loop-fold (sb ∷ s) (tb ∷ t) e (letter, letters) (t_lt, bytes) =
    let same = letters_same-fold sb tb letter t_lt in
    elim (Bool-cases (fold_rune sb == fold_rune tb)) [
      | inl yes_same ↦
          rw (simple_loop, same, yes_same) (simple_loop-fold s t (omega (arith, e)) letters bytes)
      | inr not_same ↦ rw (simple_loop, same, not_same) refl
    ]

-- `EqualFoldRight` of an ASCII text and any other: whether the runes of the two are the same but for
-- their case, where a K or an S may also be the Kelvin sign or the long s.
pub equal_fold_right-folds_equal :
    (s t : Bytes) → IsAscii s → equal_fold_right s t ≡ folds_equal s t
unfolding folds_equal
equal_fold_right-folds_equal s t ascii = equal_fold_right-runes s t (length t) (omega arith) ascii

-- `AsciiEqualFold` of an ASCII text without a K or an S, in either case, and any other text: the same,
-- with no index out of range.
pub ascii_equal_fold-folds_equal :
    (s t : Bytes) → IsPlain s → IsBytes t → ascii_equal_fold s t ≡ ok (folds_equal s t)
unfolding ascii_equal_fold folds_equal
ascii_equal_fold-folds_equal s t plain bytes =
    let by_bytes = bytes_eq-runes s t (length t) (omega arith) plain in
    elim (Bool-cases (length s == length t)) [
      | inl same ↦
          rw (same, by_bytes)
            (ascii_loop-fold s t ((==_iff (length s) (length t)).0 same) plain bytes)
      | inr other ↦ rw (other, by_bytes, bytes_eq-length s t other) refl
    ]

-- `SimpleLetterEqualFold` of a text of ASCII letters, none of them a K or an S in either case, and any
-- other text: the same, with no index out of range.
pub simple_letter_equal_fold-folds_equal :
    (s t : Bytes)
    → IsLetters s
    → IsPlain s
    → IsBytes t
    → simple_letter_equal_fold s t ≡ ok (folds_equal s t)
unfolding simple_letter_equal_fold folds_equal
simple_letter_equal_fold-folds_equal s t letters plain bytes =
    let by_bytes = bytes_eq-runes s t (length t) (omega arith) plain in
    elim (Bool-cases (length s == length t)) [
      | inl same ↦
          rw (same, by_bytes)
            (simple_loop-fold s t ((==_iff (length s) (length t)).0 same) letters bytes)
      | inr other ↦ rw (other, by_bytes, bytes_eq-length s t other) refl
    ]
