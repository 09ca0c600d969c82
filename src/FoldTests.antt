-- ===== src/FoldTests.antt =====
-- Runs of the comparisons of fold.go, and their theorems at texts that meet the hypotheses.
use ffjson.Fold.Agrees.{
  folds_equal, equal_fold_right-folds_equal, ascii_equal_fold-folds_equal,
  simple_letter_equal_fold-folds_equal,
}
use ffjson.Fold.{equal_fold_right, ascii_equal_fold, simple_letter_equal_fold}
use ffjson.Go.Utf8.{decode_rune}
use ffjson.Outcome.{ok}
use ffjson.Prelude.{◌≡◌, refl, true, ◌∷◌, Bytes, codes, arith}

-- "s" as the long s, and "K" as the Kelvin sign.
abbrev odd_sky : Bytes
odd_sky = 0xC5 ∷ 0xBF ∷ 0xE2 ∷ 0x84 ∷ 0xAA ∷ codes "Y"

same_sky : equal_fold_right (codes "sky") odd_sky ≡ true
unfolding equal_fold_right decode_rune
same_sky = refl

equal_fold_right-folds_equal_example :
    equal_fold_right (codes "sky") odd_sky ≡ folds_equal (codes "sky") odd_sky
equal_fold_right-folds_equal_example =
    equal_fold_right-folds_equal (codes "sky") odd_sky (omega arith)

ascii_equal_fold-folds_equal_example :
    ascii_equal_fold (codes "a_1") (codes "A_1") ≡ ok (folds_equal (codes "a_1") (codes "A_1"))
ascii_equal_fold-folds_equal_example =
    ascii_equal_fold-folds_equal (codes "a_1") (codes "A_1") (ground arith) (ground arith)

simple_letter_equal_fold-folds_equal_example :
    simple_letter_equal_fold (codes "Name") (codes "nAmE")
    ≡ ok (folds_equal (codes "Name") (codes "nAmE"))
simple_letter_equal_fold-folds_equal_example =
    simple_letter_equal_fold-folds_equal (codes "Name") (codes "nAmE") (ground arith) (ground arith)
      (ground arith)
