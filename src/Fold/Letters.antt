-- ===== src/Fold/Letters.antt =====
-- fflib/v1/fold.go: what its tests say of two bytes or runes, and the folding of a rune.
use ffjson.Fold.{kelvin, small_long_ess, masked, right_same, special_same, is_letter, ascii_same}
use ffjson.Go.Utf8
use ffjson.Go.Utf8.{rune_self}
use ffjson.Prelude.{
  ℕ, zero, suc, ◌+◌, ◌-◌, ◌/◌, ◌%◌, ◌≤◌, ◌<◌, ◌≡◌, refl, true, List, [], ◌∷◌, ◌==◌, ==_iff, between,
  if◌then◌else◌, Bytes, length, drop, all_below, all_below_sound, arith,
}

-- The rune that stands for all that differ from it by case only, where one of them is ASCII.
abbrev pub fold_rune : ℕ → ℕ
fold_rune r =
    if between b'A' b'Z' r
    then r + 32
    else if r == kelvin
    then b'k'
    else if r == small_long_ess
    then b's'
    else r

abbrev pub fold_all : List ℕ → List ℕ
fold_all [] = []
fold_all (r ∷ rs) = fold_rune r ∷ fold_all rs

-- The runes of a text; there are no more than bytes.
unfoldable pub runes_in : ℕ → Bytes → List ℕ
runes_in fuel [] = []
runes_in zero (b ∷ t) = []
runes_in (suc fuel) (b ∷ t) =
    let (r, size) = Utf8.decode_rune (b ∷ t) in r ∷ runes_in fuel (drop size (b ∷ t))

abbrev pub runes : Bytes → List ℕ
runes t = runes_in (length t) t

-- Every byte is ASCII.
abbrev pub IsAscii : Bytes → Type 0
IsAscii [] = Unit
IsAscii (c ∷ s) = (c < 128) × IsAscii s

abbrev pub IsBytes : Bytes → Type 0
IsBytes [] = Unit
IsBytes (c ∷ s) = (c < 256) × IsBytes s

abbrev pub IsLetters : Bytes → Type 0
IsLetters [] = Unit
IsLetters (c ∷ s) = (is_letter c ≡ true) × IsLetters s

masked_rows : all_below 256 (λ c. masked c == (if c / 32 % 2 == 1 then c - 32 else c)) ≡ true
unfolding all_below masked
masked_rows = refl

pub masked-byte : (c : ℕ) → c < 256 → masked c ≡ (if c / 32 % 2 == 1 then c - 32 else c)
masked-byte c lt = (==_iff (masked c) (if c / 32 % 2 == 1 then c - 32 else c)).0 (
    all_below_sound 256 (λ c. masked c == (if c / 32 % 2 == 1 then c - 32 else c)) c masked_rows lt)

pub right_same-fold :
    (sb tb : ℕ) → sb < 128 → tb < 128 → right_same sb tb ≡ (fold_rune sb == fold_rune tb)
unfolding right_same
right_same-fold sb tb s_lt t_lt =
    rw (right_same, masked-byte sb (omega arith), masked-byte tb (omega arith)) (ground arith)

pub ascii_same-fold :
    (sb tb : ℕ) → sb < 256 → tb < 256 → ascii_same sb tb ≡ (fold_rune sb == fold_rune tb)
unfolding ascii_same
ascii_same-fold sb tb s_lt t_lt =
    rw (ascii_same, masked-byte sb s_lt, masked-byte tb t_lt) (ground arith)

pub letters_same-fold :
    (sb tb : ℕ)
    → is_letter sb ≡ true
    → tb < 256
    → (masked sb == masked tb) ≡ (fold_rune sb == fold_rune tb)
letters_same-fold sb tb letter t_lt =
    rw (masked-byte sb (ground arith), masked-byte tb t_lt) (ground arith)

pub special_same-fold :
    (sb tr : ℕ) → sb < 128 → 128 ≤ tr → special_same sb tr ≡ (fold_rune sb == fold_rune tr)
unfolding special_same
special_same-fold sb tr s_lt t_le = ground arith
