-- ===== src/Inception/Reflect/Folds.antt =====
-- inception/reflect.go with fflib/v1/fold.go: the comparison that is chosen for a name suits it.
use ffjson.Fold.Agrees.{
  folds_equal, is_special, IsPlain, equal_fold_right-folds_equal, ascii_equal_fold-folds_equal,
  simple_letter_equal_fold-folds_equal,
}
use ffjson.Fold.Letters.{IsAscii, IsBytes, IsLetters, masked-byte}
use ffjson.Fold.{masked, is_letter}
use ffjson.Inception.Reflect.{
  FoldFunc, equal_fold, by_runes, by_bytes, by_letters, fold_loop, fold_func, run_fold,
}
use ffjson.Outcome.{ok}
use mathlib.Core.Path.{subst}
use ffjson.Prelude.{
  ℕ, ◌≡◌, ◌<◌, refl, sym, ap, Bool, true, false, not, ◌||◌, ◌&&◌, [], ◌∷◌, ltb, lt→leb, ◌==◌, Bytes,
  arith,
}

-- What the flags and the choice say of the rest of the name.
abbrev Fits : Bool → Bool → FoldFunc → Bytes → Type 0
Fits non_letter special equal_fold s = ⊥
Fits non_letter special by_runes s = Unit
Fits non_letter special by_bytes s = (special ≡ false) × IsPlain s
Fits non_letter special by_letters s =
    (non_letter ≡ false) × (special ≡ false) × IsLetters s × IsPlain s

-- The flags behind a byte.
abbrev flag_non_letter : ℕ → Bool → Bool
flag_non_letter b non_letter = ltb (masked b) b'A' || ltb b'Z' (masked b) || non_letter

abbrev flag_special : ℕ → Bool → Bool
flag_special b special =
    not (ltb (masked b) b'A' || ltb b'Z' (masked b)) && (masked b == b'K' || masked b == b'S')
    || special

special_kept :
    (b : ℕ) (special : Bool)
    → b < 128
    → flag_special b special ≡ false
    → (special ≡ false) × (is_special b ≡ false)
special_kept b special small h =
    let e = masked-byte b (omega (arith, small)) in ground (arith, e, h)

non_letter_kept :
    (b : ℕ) (non_letter : Bool)
    → b < 128
    → flag_non_letter b non_letter ≡ false
    → (non_letter ≡ false) × (is_letter b ≡ true)
non_letter_kept b non_letter small h =
    let e = masked-byte b (omega (arith, small)) in ground (arith, e, h)

Fits-cons :
    (non_letter special : Bool) (b : ℕ) (s : Bytes) (f : FoldFunc)
    → b < 128
    → Fits (flag_non_letter b non_letter) (flag_special b special) f s
    → Fits non_letter special f (b ∷ s)
Fits-cons non_letter special b s equal_fold small h = h
Fits-cons non_letter special b s by_runes small h = tt
Fits-cons non_letter special b s by_bytes small (none_yet, is_plain) =
    let (before, ordinary) = special_kept b special small none_yet in
    (before, (small, ordinary, is_plain))
Fits-cons non_letter special b s by_letters small (all_letters, none_yet, letters, is_plain) =
    let (before, ordinary) = special_kept b special small none_yet in
    let (before', letter) = non_letter_kept b non_letter small all_letters in
    (before', before, (letter, letters), (small, ordinary, is_plain))

fold_loop-Fits :
    (non_letter special : Bool) (s : Bytes)
    → IsAscii s
    → Fits non_letter special (fold_loop non_letter special s) s
unfolding fold_loop
fold_loop-Fits true true [] ascii = tt
fold_loop-Fits true false [] ascii = (refl, tt)
fold_loop-Fits false true [] ascii = tt
fold_loop-Fits false false [] ascii = (refl, refl, tt, tt)
fold_loop-Fits non_letter special (b ∷ s) (small, ascii) =
    let rest = fold_loop (flag_non_letter b non_letter) (flag_special b special) s in
    let step : fold_loop non_letter special (b ∷ s) ≡ rest =
      rw (fold_loop, lt→leb 128 b small) refl in
    subst (λ f. Fits non_letter special f (b ∷ s)) (sym step)
      (Fits-cons non_letter special b s rest small
        (fold_loop-Fits (flag_non_letter b non_letter) (flag_special b special) s ascii))

-- The comparison that foldFunc chooses for an ASCII name is never bytes.EqualFold, and it compares the
-- name with any key, the case of the letters forgotten, where a K or an S may also be the Kelvin sign
-- or the long s: no index is out of range.
pub run_fold-fold_func :
    (standard : Bytes → Bytes → Bool) (name key : Bytes)
    → IsAscii name
    → IsBytes key
    → run_fold standard (fold_func name) name key ≡ ok (folds_equal name key)
unfolding fold_func
run_fold-fold_func standard name key ascii bytes =
    at (fold_func name) (fold_loop-Fits false false name ascii)
  where
    at :
        (f : FoldFunc)
        → Fits false false f name
        → run_fold standard f name key ≡ ok (folds_equal name key)
    at equal_fold h = absurd h
    at by_runes h = ap ok (equal_fold_right-folds_equal name key ascii)
    at by_bytes (_, is_plain) = ascii_equal_fold-folds_equal name key is_plain bytes
    at by_letters (_, _, letters, is_plain) =
        simple_letter_equal_fold-folds_equal name key letters is_plain bytes
