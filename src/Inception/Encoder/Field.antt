-- ===== src/Inception/Encoder/Field.antt =====
-- inception/encoder.go: the code of a map and of a field, around the code of a value.
use ffjson.Inception.{
  TypeInfo, string, StructField, Typ, basic, array, slice, ptr, map, struct, Fields, end, field,
  Gen, ◌then◌, say, say_line, around, needs, fflib,
}
use ffjson.Inception.Queue.{
  queue_write, drop_write, flush_writes, write_flush, get_queued, push, flush_queue,
}
use ffjson.Prelude.{Bool, true, false, not, ◌&&◌, [], ◌++◌, if◌then◌else◌, Bytes, codes}
use ffjson.Inception.Encoder.Kinds.{Shape, shape, is_simple}
use ffjson.Inception.Encoder.{encode_call, fallback, type_remark}

-- `getMapValue` for an elem of a basic kind, around the code of a value.
abbrev pub map_value : Bytes → Gen → Gen
map_value name value =
    needs fflib
    then around (codes "if ") name (codes " == nil  {\n")
    then queue_write (codes "null")
    then get_queued
    then drop_write
    then say_line (codes "} else {")
    then write_flush (codes "{ ")
    then around (codes "  for key, value := range ") name (codes " {\n")
    then say_line (codes "    fflib.WriteJsonString(buf, key)")
    then say_line (codes "    buf.WriteString(`:`)")
    then value
    then say_line (codes "    buf.WriteByte(',')")
    then say_line (codes "  }")
    then say_line (codes "buf.Rewind(1)")
    then write_flush (codes "}")
    then say_line (codes "}")

-- An elem that `getMapValue` writes itself.
abbrev pub is_simple_elem : Typ → Bool
is_simple_elem (basic i k) = is_simple (shape k)
is_simple_elem _ = false

abbrev pub is_string : Typ → Bool
is_string (basic i string) = true
is_string _ = false

-- `getMapValue`
abbrev pub get_map_value : TypeInfo → Typ → Typ → Bytes → Gen → Gen
get_map_value i key elem name value =
    if not (is_string key)
    then (type_remark (codes "Falling back.") i.text (codes "map")
        then flush_writes
        then encode_call name)
    else if is_simple_elem elem
    then map_value name value
    else (flush_writes then fallback name i.text (codes "map"))

-- `getOmitEmpty` on the kind of a field that is not a pointer.
abbrev pub omit_basic : Shape → Bytes → Gen
omit_basic Shape.boolean ptname = around (codes "if ") ptname (codes " != false {\n")
omit_basic Shape.text ptname = around (codes "if len(") ptname (codes ") != 0 {\n")
omit_basic Shape.dynamic ptname = around (codes "if ") ptname (codes " != nil {\n")
omit_basic Shape.other ptname = say_line (codes "if true {")
omit_basic _ ptname = around (codes "if ") ptname (codes " != 0 {\n")

abbrev pub omit_test : Typ → Bytes → Gen
omit_test (basic i k) ptname = omit_basic (shape k) ptname
omit_test (array i t) ptname = around (codes "if len(") ptname (codes ") != 0 {\n")
omit_test (slice i t) ptname = around (codes "if len(") ptname (codes ") != 0 {\n")
omit_test (map i key elem) ptname = around (codes "if len(") ptname (codes ") != 0 {\n")
omit_test (ptr i t) ptname = around (codes "if ") ptname (codes " != nil {\n")
omit_test (struct i fs) ptname = say_line (codes "if true {")

unfoldable pub get_omit_empty : StructField → Typ → Gen
get_omit_empty sf t =
    if sf.pointer then say_line (codes "if true {") else omit_test t (codes "j." ++ sf.name)

-- The kinds that `getValue` puts in quotes.
abbrev is_quoted : Typ → Bool
is_quoted (basic i k) = is_simple (shape k) && not (is_string (basic i k))
is_quoted _ = false

-- `getValue` around the code of the value.
abbrev pub get_value : StructField → Typ → Gen → Gen
get_value sf t value =
    if sf.force_string && is_quoted t
    then (queue_write (codes "\"")
        then value
        then (if sf.pointer then write_flush (codes "\"") else queue_write (codes "\"")))
    else value

-- The queue is copied, and the copy is used at the end of the value.
unfoldable pub with_copy : (Gen → Gen) → Gen
unfolding flush_queue push
with_copy f st = f (λ now. ((flush_queue (push (codes "null") st.queued)).0, now)) st

abbrev test_nil : Bytes → Gen
test_nil name = around (codes "if ") name (codes " != nil {\n")

-- `getField` with its test for `omitempty` and around the code of the value; `name` has the prefix in
-- front.
unfoldable pub field_code : Bool → Bool → Gen → Bytes → Bytes → Gen → Gen
field_code omit_empty pointer test name json_name value =
    (if omit_empty
      then (flush_writes then (if pointer then test_nil name else say []) then test)
      else say [])
    then (if pointer && not omit_empty then test_nil name else say [])
    then queue_write (json_name ++ codes ":")
    then with_copy (λ null.
      value
      then queue_write (codes ",")
      then (if pointer && not omit_empty
          then (say_line (codes "} else {") then null then say_line (codes "}"))
          else say []))
    then (if omit_empty
        then (flush_writes
            then (if pointer then say_line (codes "}") else say [])
            then say_line (codes "}"))
        else say [])

abbrev pub get_field : StructField → Typ → Bytes → Gen → Gen
get_field sf t name value =
    field_code sf.omit_empty sf.pointer (get_omit_empty sf t) name sf.json_name
      (get_value sf t value)

-- `lastConditional`
unfoldable pub last_conditional : Fields → Bool
last_conditional end = false
last_conditional (field sf t end) = sf.omit_empty
last_conditional (field sf t (field sf' t' fs)) = last_conditional (field sf' t' fs)

-- The comma behind the last field is taken back.
abbrev pub take_comma : Bool → Gen
take_comma conditional =
    if conditional then (flush_writes then say_line (codes "buf.Rewind(1)")) else drop_write
