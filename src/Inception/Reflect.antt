-- ===== src/Inception/Reflect.antt =====
-- inception/reflect.go: the comparison that the generator chooses for a name, and the fields that it
-- keeps.
pub mod Folds
pub mod Dominant
use ffjson.Inception.{StructField}
use ffjson.Fold.{masked, equal_fold_right, ascii_equal_fold, simple_letter_equal_fold}
use ffjson.Outcome.{Outcome, ok}
use ffjson.Prelude.{
  ℕ, zero, suc, length, Bool, true, false, not, ◌||◌, ◌&&◌, Option, none, some, List, [], ◌∷◌, ◌++◌,
  ltb, leb, ◌==◌, if◌then◌else◌, Bytes, bytes_eq,
}

-- The names of the comparisons; the first one is `bytes.EqualFold`.
pub data FoldFunc : Type 0 where
  equal_fold : FoldFunc
  by_runes : FoldFunc
  by_bytes : FoldFunc
  by_letters : FoldFunc

-- The loop of `foldFunc` with its two flags, and what stands behind it.
pub fold_loop : Bool → Bool → Bytes → FoldFunc
fold_loop non_letter special [] =
    if special then by_runes else if non_letter then by_bytes else by_letters
fold_loop non_letter special (b ∷ key) =
    let upper = masked b in
    elim (leb 128 b) [
      | true ↦ equal_fold
      | false ↦
          fold_loop (ltb upper b'A' || ltb b'Z' upper || non_letter)
            (not (ltb upper b'A' || ltb b'Z' upper) && (upper == b'K' || upper == b'S') || special)
            key
    ]

-- `foldFunc`
unfoldable pub fold_func : Bytes → FoldFunc
unfolding fold_loop
fold_func = fold_loop false false

-- What the code with this name computes; `bytes.EqualFold` is a parameter.
abbrev pub run_fold : (Bytes → Bytes → Bool) → FoldFunc → Bytes → Bytes → Outcome Bool
run_fold standard equal_fold s t = ok (standard s t)
run_fold standard by_runes s t = ok (equal_fold_right s t)
run_fold standard by_bytes s t = ascii_equal_fold s t
run_fold standard by_letters s t = simple_letter_equal_fold s t

-- The first loop of `dominantField`: the only tagged field there is, if any; nothing where there are
-- two.
pub find_tagged : Option StructField → List StructField → Option (Option StructField)
find_tagged seen [] = some seen
find_tagged none (f ∷ fs) = if f.tagged then find_tagged (some f) fs else find_tagged none fs
find_tagged (some g) (f ∷ fs) = if f.tagged then none else find_tagged (some g) fs

abbrev pub only : List StructField → Option StructField
only (f ∷ []) = some f
only _ = none

abbrev pub dominant : List StructField → Option (Option StructField) → Option StructField
dominant fields none = none
dominant fields (some none) = only fields
dominant fields (some (some f)) = some f

-- `dominantField`, of one field or more.
unfoldable pub dominant_field : List StructField → Option StructField
unfolding find_tagged
dominant_field fields = dominant fields (find_tagged none fields)

-- The fields behind the first one that have its name in JSON, and the others.
pub same_name : Bytes → List StructField → List StructField × List StructField
same_name name [] = ([], [])
same_name name (f ∷ fs) = elim (bytes_eq f.json_name name) [
  | true ↦ let (same, others) = same_name name fs in (f ∷ same, others)
  | false ↦ ([], f ∷ fs)
]

abbrev onto : Option StructField → List StructField → List StructField
onto none fields = fields
onto (some f) fields = f ∷ fields

-- The last loop of `extractFields`; a round takes a field or more.
drop_hidden : ℕ → List StructField → List StructField
unfolding same_name dominant_field
drop_hidden zero fields = []
drop_hidden (suc fuel) [] = []
drop_hidden (suc fuel) (f ∷ fs) =
    let (same, others) = same_name f.json_name fs in
    elim same [
      | [] ↦ f ∷ drop_hidden fuel others
      | g ∷ gs ↦ onto (dominant_field (f ∷ g ∷ gs)) (drop_hidden fuel others)
    ]

unfoldable pub visible_fields : List StructField → List StructField
unfolding drop_hidden
visible_fields fields = drop_hidden (length fields) fields
