-- ===== src/Inception/Encoder.antt =====
-- inception/encoder.go and encoder_tpl.go: the text of `MarshalJSON` and `MarshalJSONBuf` that the
-- generator writes for a struct. A type is a finite tree here: one that contains itself without a
-- struct or a marshaler between, as `type T []T`, has no code, since the source recurses on it without
-- end.
pub mod Kinds
pub mod Field
pub mod Create
pub mod Balanced
use ffjson.Inception.{
  TypeInfo, Kind, bool, int, int8, int16, int32, int64, uint, uint8, uint16, uint32, uint64,
  uintptr, float32, float64, complex64, complex128, chan, func, interface, string, unsafe_pointer,
  StructField, Typ, basic, array, slice, ptr, map, struct, Fields, end, field, info, StructInfo,
  has_feature, must_encoder, Inception, Gen, ◌then◌, say, say_line, around, needs, fflib,
}
use ffjson.Inception.Queue.{
  queue_write, drop_write, flush_writes, write_flush, get_queued, push, flush_queue,
}
use ffjson.Prelude.{
  Bool, true, false, not, ◌&&◌, ◌||◌, List, [], ◌∷◌, ◌++◌, ◌==◌, if◌then◌else◌, Bytes, codes,
  bytes_eq,
}
use ffjson.Inception.Encoder.Kinds.{Shape, shape, kind_text}

-- `HasFeature(MustEncoder)` of the struct with this type, if there is one.
abbrev encodes : List StructInfo → Typ → Bool
encodes [] typ = false
encodes (v ∷ objs) (ptr i elem) =
    if v.id == i.id || v.id == (info elem).id
    then has_feature v.options must_encoder
    else encodes objs (ptr i elem)
encodes (v ∷ objs) typ =
    if v.id == (info typ).id then has_feature v.options must_encoder else encodes objs typ

-- `typeInInception` for the feature `MustEncoder`
unfoldable pub type_in_inception : List StructInfo → Typ → Bool
type_in_inception = encodes

abbrev pub is_ptr : Typ → Bool
is_ptr (ptr i t) = true
is_ptr _ = false

-- The template `handleMarshaler`
unfoldable pub handle_marshaler : Bytes → Bool → Bool → Bool → Gen
handle_marshaler name is_pointer faster marshaler =
    say (codes "\n\t{\n\t\t")
    then (if is_pointer
        then around (codes "\n\t\tif ") name
            (codes " == nil {\n\t\t\tbuf.WriteString(\"null\")\n\t\t} else {\n\t\t")
        else say [])
    then say (codes "\n\n\t\t")
    then (if faster
        then around (codes "\n\t\terr = ") name
            (codes ".MarshalJSONBuf(buf)\n\t\tif err != nil {\n\t\t\treturn err\n\t\t}\n\t\t")
        else if marshaler
        then around (codes "\n\t\tobj, err = ") name (
            codes
              ".MarshalJSON()\n\t\tif err != nil {\n\t\t\treturn err\n\t\t}\n\t\tbuf.Write(obj)\n\t\t")
        else say [])
    then say (codes "\n\t\t")
    then (if is_pointer then say (codes "\n\t\t}\n\t\t") else say [])
    then say (codes "\n\t}\n")

-- The fallback: `err = buf.Encode(name)` and the return of its error.
abbrev pub encode_call : Bytes → Gen
encode_call argument =
    around (codes "err = buf.Encode(") argument (codes ")\n")
    then say_line (codes "if err != nil {")
    then say_line (codes "  return err")
    then say_line (codes "}")

-- `fmt.Sprintf("/* ... type=%v kind=%v */\n", typ, typ.Kind())`
unfoldable pub type_remark : Bytes → Bytes → Bytes → Gen
type_remark words typ kind = say_line (
    codes "/* "
    ++ (words ++ (codes " type=" ++ (typ ++ (codes " kind=" ++ (kind ++ codes " */"))))))

abbrev pub fallback : Bytes → Bytes → Bytes → Gen
fallback name typ kind = type_remark (codes "Falling back.") typ kind then encode_call name

-- The `case` of `getGetInnerValue` for `reflect.String`
abbrev pub string_value : TypeInfo → Bytes → Bytes → Bool → Gen
string_value i name ptname force_string =
    if bytes_eq i.pkg_path (codes "encoding/json") && bytes_eq i.name (codes "Number")
    then (say_line (codes "/* json.Number */") then encode_call name)
    else (needs fflib
        then (if force_string
            then (say_line (codes "{")
                then say_line (codes "tmpbuf := fflib.Buffer{}")
                then around (codes "tmpbuf.Grow(len(") ptname (codes ") + 16)\n")
                then around (codes "fflib.WriteJsonString(&tmpbuf, string(") ptname (codes "))\n")
                then say_line (codes "fflib.WriteJsonString(buf, string( tmpbuf.Bytes() ))")
                then say_line (codes "}"))
            else around (codes "fflib.WriteJsonString(buf, string(") ptname (codes "))\n")))

-- The `case` for `reflect.Bool`
abbrev pub bool_value : Bytes → Gen
bool_value ptname =
    around (codes "if ") ptname (codes " {\n")
    then queue_write (codes "true")
    then get_queued
    then say_line (codes "} else {")
    then drop_write
    then write_flush (codes "false")
    then say_line (codes "}")

-- The cases for types that contain no other, behind the first flush.
unfoldable pub basic_value : TypeInfo → Kind → Shape → Bytes → Bytes → Bool → Gen
basic_value i k Shape.signed name ptname force_string =
    needs fflib
    then around (codes "fflib.FormatBits2(buf, uint64(") ptname (codes "), 10, ")
    then around [] ptname (codes " < 0)\n")
basic_value i k Shape.unsigned name ptname force_string =
    needs fflib
    then around (codes "fflib.FormatBits2(buf, uint64(") ptname (codes "), 10, false)\n")
basic_value i k Shape.single name ptname force_string =
    needs fflib
    then around (codes "fflib.AppendFloat(buf, float64(") ptname (codes "), 'g', -1, 32)\n")
basic_value i k Shape.double name ptname force_string =
    needs fflib
    then around (codes "fflib.AppendFloat(buf, float64(") ptname (codes "), 'g', -1, 64)\n")
basic_value i k Shape.boolean name ptname force_string = bool_value ptname
basic_value i k Shape.text name ptname force_string = string_value i name ptname force_string
basic_value i k Shape.dynamic name ptname force_string =
    type_remark (codes "Interface types must use runtime reflection.") i.text (kind_text k)
    then encode_call name
basic_value i k Shape.other name ptname force_string = fallback name i.text (kind_text k)

-- A slice of bytes, as base64.
abbrev pub base64_value : Bytes → Bytes → Gen
base64_value elem_name ptname =
    needs (codes "\"encoding/base64\"")
    then say_line (codes "buf.WriteString(`\"`)")
    then say_line (codes "{")
    then say_line (codes "enc := base64.NewEncoder(base64.StdEncoding, buf)")
    then (if bytes_eq elem_name (codes "byte")
        then around (codes "enc.Write(") ptname (codes ")\n")
        else (needs (codes "\"reflect\"")
            then around (codes "enc.Write(reflect.Indirect(reflect.ValueOf(") ptname
                (codes ")).Bytes())\n")))
    then say_line (codes "enc.Close()")
    then say_line (codes "}")
    then say_line (codes "buf.WriteString(`\"`)")

-- The loop over an array or a slice, around the code of an element.
abbrev pub list_value : Bytes → Gen → Gen
list_value ptname element =
    say_line (codes "buf.WriteString(`[`)")
    then around (codes "for i, v := range ") ptname (codes "{\n")
    then say_line (codes "if i != 0 {")
    then say_line (codes "buf.WriteString(`,`)")
    then say_line (codes "}")
    then element
    then say_line (codes "}")
    then say_line (codes "buf.WriteString(`]`)")

-- A value that can be nil.
abbrev pub unless_nil : Bytes → Gen → Gen
unless_nil name value =
    around (codes "if ") name (codes "!= nil {\n")
    then value
    then say_line (codes "} else {")
    then say_line (codes "buf.WriteString(`null`)")
    then say_line (codes "}")

abbrev pub is_uint8 : Typ → Bool
is_uint8 (basic i uint8) = true
is_uint8 _ = false

abbrev pub unnamed : TypeInfo → Bool
unnamed i = bytes_eq i.name []

-- The type implements one of the interfaces, or code is asked for it.
unfoldable pub has_marshaler : List StructInfo → Typ → Bool
has_marshaler objs t = (info t).marshaler_faster || type_in_inception objs t || (info t).marshaler

unfoldable pub marshaler_value : List StructInfo → Bytes → Typ → Gen
unfolding handle_marshaler
marshaler_value objs name t =
    flush_writes
    then handle_marshaler name (is_ptr t) ((info t).marshaler_faster || type_in_inception objs t)
        (info t).marshaler

abbrev pub is_struct : Typ → Bool
is_struct (struct i fs) = true
is_struct _ = false

abbrev pub or_star : Bool → Bytes → Bytes
or_star pointer name = if pointer then codes "*" ++ name else name
