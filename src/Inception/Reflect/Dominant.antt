-- ===== src/Inception/Reflect/Dominant.antt =====
-- inception/reflect.go: the field that dominates others of its name.
use ffjson.Inception.{StructField}
use ffjson.Inception.Reflect.{only}
use ffjson.Prelude.{Option, none, some, List, [], ◌∷◌, if◌then◌else◌}

-- The fields whose name a tag gives.
abbrev pub tagged_fields : List StructField → List StructField
tagged_fields [] = []
tagged_fields (f ∷ fs) = if f.tagged then f ∷ tagged_fields fs else tagged_fields fs

-- What the tagged fields and all the fields say by Go's rules for embedded structs.
abbrev pub by_tags : List StructField → List StructField → Option StructField
by_tags [] fields = only fields
by_tags (f ∷ []) fields = some f
by_tags (f ∷ g ∷ gs) fields = none

-- The tagged fields behind one that has been seen, or not.
abbrev seen_then : Option StructField → List StructField → Option (Option StructField)
seen_then seen [] = some seen
seen_then none (f ∷ []) = some (some f)
seen_then none (f ∷ g ∷ gs) = none
seen_then (some g) (f ∷ fs) = none
