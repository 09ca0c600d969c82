-- ===== src/Inception/Encoder/Create.antt =====
-- inception/encoder.go: `getGetInnerValue` on each kind, and `CreateMarshalJSON`.
use ffjson.Inception.Encoder.Kinds.{shape}
use ffjson.Inception.Encoder.Field.{get_map_value, get_field, last_conditional, take_comma}
use ffjson.Inception.Encoder.{
  type_remark, encode_call, basic_value, base64_value, list_value, unless_nil, is_uint8, unnamed,
  has_marshaler, marshaler_value, is_struct, or_star,
}
use ffjson.Inception.Queue.{queue_write, flush_writes, write_flush}
use ffjson.Inception.{
  Kind, bool, StructField, Typ, basic, array, slice, ptr, map, struct, Fields, end, field, info,
  StructInfo, Gen, ◌then◌, say, say_line, around,
}
use ffjson.Prelude.{Bool, true, false, ◌||◌, List, [], ◌++◌, if◌then◌else◌, Bytes, codes}

-- The writes that are pending stay so in front of a bool.
abbrev pub flush_unless_bool : Kind → Gen
flush_unless_bool bool = say []
flush_unless_bool _ = flush_writes

-- A struct with a name and no marshaler.
abbrev pub named_struct : Bytes → Bytes → Bool → Gen
named_struct text name pointer =
    type_remark (codes "Struct fall back.") text (codes "struct")
    then flush_writes
    then encode_call (if pointer then name else codes "&" ++ name)

abbrev pub inline_struct : Bytes → Bool → Gen → Gen
inline_struct text conditional fields =
    queue_write (codes "{")
    then queue_write (codes " ")
    then type_remark (codes "Inline struct.") text (codes "struct")
    then fields
    then take_comma conditional
    then write_flush (codes "}")

abbrev pub renamed : Bytes → StructField → StructField
renamed prefix sf = record sf { name = prefix ++ sf.name }

unfoldable mutual
  unfolding basic_value has_marshaler marshaler_value last_conditional

  -- `getGetInnerValue`
  pub get_inner_value : List StructInfo → Bytes → Typ → Bool → Bool → Gen
  get_inner_value objs name (basic i k) pointer force_string =
      flush_unless_bool k
      then (if has_marshaler objs (basic i k)
          then marshaler_value objs name (basic i k)
          else basic_value i k (shape k) name (or_star pointer name) force_string)
  get_inner_value objs name (array i t) pointer force_string =
      flush_writes
      then (if has_marshaler objs (array i t)
          then marshaler_value objs name (array i t)
          else list_value (or_star pointer name) (get_inner_value objs (codes "v") t false false))
  get_inner_value objs name (slice i t) pointer force_string =
      flush_writes
      then (if has_marshaler objs (slice i t)
          then marshaler_value objs name (slice i t)
          else unless_nil name (
              if is_uint8 t
              then base64_value (info t).name (or_star pointer name)
              else list_value (or_star pointer name)
                  (get_inner_value objs (codes "v") t false false)))
  get_inner_value objs name (ptr i t) pointer force_string =
      flush_writes
      then (if has_marshaler objs (ptr i t)
          then marshaler_value objs name (ptr i t)
          else unless_nil name (
              get_inner_value objs (if is_struct t then name else codes "*" ++ name) t false false))
  get_inner_value objs name (map i key elem) pointer force_string =
      if has_marshaler objs (map i key elem)
      then marshaler_value objs name (map i key elem)
      else get_map_value i key elem (or_star pointer name)
          (get_inner_value objs (codes "value") elem false force_string)
  get_inner_value objs name (struct i fs) pointer force_string =
      if has_marshaler objs (struct i fs)
      then marshaler_value objs name (struct i fs)
      else if unnamed i
      then inline_struct i.text (last_conditional fs) (get_fields objs (name ++ codes ".") [] fs)
      else named_struct i.text name pointer

  -- The fields of a struct, with a prefix in the name and one in front of it.
  pub get_fields : List StructInfo → Bytes → Bytes → Fields → Gen
  get_fields objs inside prefix end = say []
  get_fields objs inside prefix (field sf t fs) =
      get_field (renamed inside sf) t (prefix ++ (inside ++ sf.name))
        (get_inner_value objs (prefix ++ (inside ++ sf.name)) t sf.pointer sf.force_string)
      then get_fields objs inside prefix fs

abbrev no_fields : Fields → Bool
no_fields end = true
no_fields (field sf t fs) = false

-- `MarshalJSON`, which calls `MarshalJSONBuf`.
abbrev pub marshal_json : Bytes → Gen
marshal_json name =
    say (codes "// MarshalJSON marshal bytes to json - template\n")
    then around (codes "func (j *") name (codes ") MarshalJSON() ([]byte, error) {\n")
    then say_line (codes "var buf fflib.Buffer")
    then say_line (codes "if j == nil {")
    then say_line (codes "  buf.WriteString(\"null\")")
    then say_line (codes "  return buf.Bytes(), nil")
    then say_line (codes "}")
    then say_line (codes "err := j.MarshalJSONBuf(&buf)")
    then say_line (codes "if err != nil {")
    then say_line (codes "  return nil, err")
    then say_line (codes "}")
    then say_line (codes "return buf.Bytes(), nil")
    then say_line (codes "}")

-- The head of `MarshalJSONBuf`
abbrev pub marshal_json_buf : Bytes → Gen
marshal_json_buf name =
    say (codes "// MarshalJSONBuf marshal buff to json - template\n")
    then around (codes "func (j *") name
        (codes ") MarshalJSONBuf(buf fflib.EncodingBuffer) (error) {\n")
    then say_line (codes "  if j == nil {")
    then say_line (codes "    buf.WriteString(\"null\")")
    then say_line (codes "    return nil")
    then say_line (codes "  }")
    then say_line (codes "var err error")
    then say_line (codes "var obj []byte")
    then say_line (codes "_ = obj")
    then say_line (codes "_ = err")

-- `CreateMarshalJSON`: the text that is appended to `OutputFuncs`.
unfoldable pub create_marshal_json : List StructInfo → Bytes → Fields → Gen
unfolding get_fields last_conditional
create_marshal_json objs name fields =
    marshal_json name
    then marshal_json_buf name
    then queue_write (codes "{")
    then (if last_conditional fields || no_fields fields then queue_write (codes " ") else say [])
    then get_fields objs [] (codes "j.") fields
    then take_comma (last_conditional fields)
    then write_flush (codes "}")
    then say_line (codes "return nil")
    then say_line (codes "}")
