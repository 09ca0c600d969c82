-- ===== src/Inception/Encoder/Balanced/Values.antt =====
-- inception/encoder.go: the brackets of the code that `CreateMarshalJSON` writes.
use ffjson.Inception.Encoder.Balanced.Fields.{
  base64_value-Takes, list_value-Takes, unless_nil-Takes, marshaler_value-Takes,
  get_map_value-Takes, get_field-Takes, take_comma-Takes,
}
use ffjson.Inception.Encoder.Balanced.{
  if-Takes, encode_call-Takes, type_remark-Takes, basic_value-Takes,
}
use ffjson.Inception.Encoder.Create.{
  flush_unless_bool, named_struct, inline_struct, get_inner_value, get_fields,
}
use ffjson.Inception.Encoder.{or_star, is_struct}
use ffjson.Inception.Brackets.{scan_brackets, is_plain, held, ends_comment}
use ffjson.Inception.Balanced.{
  Takes, IsBalanced, ◌∙∙◌, say-Takes, queue_write-Takes, flush_writes-Takes, write_flush-Takes,
}
use ffjson.Inception.{
  Kind, bool, int, int8, int16, int32, int64, uint, uint8, uint16, uint32, uint64, uintptr, float32,
  float64, complex64, complex128, chan, func, interface, string, unsafe_pointer, info, Typ, basic,
  array, slice, ptr, map, struct, Fields, end, field, StructInfo, Gen, ◌then◌,
}
use ffjson.Prelude.{
  ℕ, ◌≡◌, refl, Bool, true, false, List, [], ◌∷◌, ◌++◌, if◌then◌else◌, Bytes, codes, arith,
}

-- The names of the fields can stand in code, their names in JSON in a literal, and the types in a
-- comment.
unfoldable mutual
  pub IsClear : Typ → Type 0
  IsClear (basic i k) = ends_comment false i.text ≡ false
  IsClear (array i t) = IsClear t
  IsClear (slice i t) = IsClear t
  IsClear (ptr i t) = IsClear t
  IsClear (map i key elem) = (ends_comment false i.text ≡ false) × IsClear elem
  IsClear (struct i fs) = (ends_comment false i.text ≡ false) × AreClear fs

  pub AreClear : Fields → Type 0
  AreClear end = Unit
  AreClear (field sf t fs) =
      (is_plain sf.name ≡ true)
      × (held (sf.json_name ++ codes ":") ≡ true)
      × IsClear t
      × AreClear fs

is_plain-append : (s t : Bytes) → is_plain s ≡ true → is_plain t ≡ true → is_plain (s ++ t) ≡ true
is_plain-append [] t h h' = h'
is_plain-append (c ∷ s) t h h' = ground (arith, is_plain-append s t)

or_star-is_plain :
    (pointer : Bool) (name : Bytes) → is_plain name ≡ true → is_plain (or_star pointer name) ≡ true
or_star-is_plain true name h = h
or_star-is_plain false name h = h

starred-is_plain :
    (test : Bool) (name : Bytes)
    → is_plain name ≡ true
    → is_plain (if test then name else codes "*" ++ name) ≡ true
starred-is_plain true name h = h
starred-is_plain false name h = h

flush_unless_bool-Takes : {a : List ℕ} (k : Kind) → Takes a (flush_unless_bool k) a
unfolding scan_brackets
flush_unless_bool-Takes bool = say-Takes _ refl
flush_unless_bool-Takes int = flush_writes-Takes
flush_unless_bool-Takes int8 = flush_writes-Takes
flush_unless_bool-Takes int16 = flush_writes-Takes
flush_unless_bool-Takes int32 = flush_writes-Takes
flush_unless_bool-Takes int64 = flush_writes-Takes
flush_unless_bool-Takes uint = flush_writes-Takes
flush_unless_bool-Takes uint8 = flush_writes-Takes
flush_unless_bool-Takes uint16 = flush_writes-Takes
flush_unless_bool-Takes uint32 = flush_writes-Takes
flush_unless_bool-Takes uint64 = flush_writes-Takes
flush_unless_bool-Takes uintptr = flush_writes-Takes
flush_unless_bool-Takes float32 = flush_writes-Takes
flush_unless_bool-Takes float64 = flush_writes-Takes
flush_unless_bool-Takes complex64 = flush_writes-Takes
flush_unless_bool-Takes complex128 = flush_writes-Takes
flush_unless_bool-Takes chan = flush_writes-Takes
flush_unless_bool-Takes func = flush_writes-Takes
flush_unless_bool-Takes interface = flush_writes-Takes
flush_unless_bool-Takes string = flush_writes-Takes
flush_unless_bool-Takes unsafe_pointer = flush_writes-Takes

named_struct-Takes :
    {a : List ℕ} (text name : Bytes) (pointer : Bool)
    → ends_comment false text ≡ false
    → is_plain name ≡ true
    → Takes a (named_struct text name pointer) a
named_struct-Takes text name true clear h =
    type_remark-Takes _ text _ refl clear refl ∙∙ flush_writes-Takes ∙∙ encode_call-Takes name h
named_struct-Takes text name false clear h =
    type_remark-Takes _ text _ refl clear refl ∙∙ flush_writes-Takes ∙∙ encode_call-Takes _ h

inline_struct-Takes :
    {a : List ℕ} (text : Bytes) (conditional : Bool) (fields : Gen)
    → ends_comment false text ≡ false
    → IsBalanced fields
    → Takes a (inline_struct text conditional fields) a
inline_struct-Takes text conditional fields clear inner =
    queue_write-Takes _ refl
    ∙∙ queue_write-Takes _ refl
    ∙∙ type_remark-Takes _ text _ refl clear refl
    ∙∙ inner _
    ∙∙ take_comma-Takes conditional
    ∙∙ write_flush-Takes _ refl

mutual
  unfolding get_inner_value get_fields IsClear AreClear scan_brackets

  pub get_inner_value-Takes :
      (objs : List StructInfo) (name : Bytes) (t : Typ) (pointer force_string : Bool)
      → IsClear t
      → is_plain name ≡ true
      → IsBalanced (get_inner_value objs name t pointer force_string)
  get_inner_value-Takes objs name (basic i k) pointer force_string clear h a =
      flush_unless_bool-Takes k
      ∙∙ if-Takes _ _ _ (marshaler_value-Takes objs name (basic i k) h)
          (basic_value-Takes i k _ name _ force_string clear h (or_star-is_plain pointer name h))
  get_inner_value-Takes objs name (array i t) pointer force_string clear h a =
      flush_writes-Takes
      ∙∙ if-Takes _ _ _ (marshaler_value-Takes objs name (array i t) h) (
          list_value-Takes (or_star pointer name) _ (or_star-is_plain pointer name h)
            (get_inner_value-Takes objs (codes "v") t false false clear refl))
  get_inner_value-Takes objs name (slice i t) pointer force_string clear h a =
      flush_writes-Takes
      ∙∙ if-Takes _ _ _ (marshaler_value-Takes objs name (slice i t) h) (
          unless_nil-Takes name _ h (λ b.
            if-Takes _ _ _
              (base64_value-Takes (info t).name (or_star pointer name)
                (or_star-is_plain pointer name h))
              (list_value-Takes (or_star pointer name) _ (or_star-is_plain pointer name h)
                (get_inner_value-Takes objs (codes "v") t false false clear refl))))
  get_inner_value-Takes objs name (ptr i t) pointer force_string clear h a =
      flush_writes-Takes
      ∙∙ if-Takes _ _ _ (marshaler_value-Takes objs name (ptr i t) h) (
          unless_nil-Takes name _ h (
            get_inner_value-Takes objs _ t false false clear
              (starred-is_plain (is_struct t) name h)))
  get_inner_value-Takes objs name (map i key elem) pointer force_string (clear, elem_clear) h a =
      if-Takes _ _ _ (marshaler_value-Takes objs name (map i key elem) h) (
        get_map_value-Takes i key elem _ _ clear (or_star-is_plain pointer name h)
          (get_inner_value-Takes objs (codes "value") elem false force_string elem_clear refl))
  get_inner_value-Takes objs name (struct i fs) pointer force_string (clear, fields_clear) h a =
      if-Takes _ _ _ (marshaler_value-Takes objs name (struct i fs) h) (
        if-Takes _ _ _
          (inline_struct-Takes i.text _ _ clear (
            get_fields-Takes objs (name ++ codes ".") [] fs fields_clear
              (is_plain-append name (codes ".") h refl) refl))
          (named_struct-Takes i.text name pointer clear h))

  pub get_fields-Takes :
      (objs : List StructInfo) (inside prefix : Bytes) (fs : Fields)
      → AreClear fs
      → is_plain inside ≡ true
      → is_plain prefix ≡ true
      → IsBalanced (get_fields objs inside prefix fs)
  get_fields-Takes objs inside prefix end clear h h' a = say-Takes _ refl
  get_fields-Takes objs inside prefix (field sf t fs) (named, in_json, clear, clear_rest) h h' a =
      let renamed_plain = is_plain-append inside sf.name h named in
      let full_plain = is_plain-append prefix (inside ++ sf.name) h' renamed_plain in
      get_field-Takes _ t _ _ renamed_plain full_plain in_json
        (get_inner_value-Takes objs _ t sf.pointer sf.force_string clear full_plain)
      ∙∙ get_fields-Takes objs inside prefix fs clear_rest h h' a
