-- ===== src/Inception/Encoder/Balanced/Fields.antt =====
-- inception/encoder.go: the brackets of the code around values, and of the code of a field.
use ffjson.Inception.Encoder.Balanced.{around-Takes, if-Takes, encode_call-Takes, type_remark-Takes}
use ffjson.Inception.Encoder.Kinds.{Shape}
use ffjson.Inception.Encoder.Field.{
  map_value, get_map_value, omit_basic, omit_test, get_omit_empty, get_value, with_copy, field_code,
  get_field, take_comma,
}
use ffjson.Inception.Encoder.{
  base64_value, list_value, unless_nil, handle_marshaler, marshaler_value,
}
use ffjson.Inception.Brackets.{scan_brackets, read_char, is_plain, held, ends_comment}
use ffjson.Inception.Balanced.{
  Takes, IsBalanced, ◌∙∙◌, say-Takes, say_line-Takes, needs-Takes, queue_write-Takes,
  drop_write-Takes, flush_writes-Takes, get_queued-Takes, write_flush-Takes, flush_queue-Brings,
  push-AreHeld,
}
use ffjson.Inception.Queue.{push, flush_queue}
use ffjson.Inception.{
  TypeInfo, Typ, basic, array, slice, ptr, map, struct, StructField, StructInfo, Gen,
}
use ffjson.Prelude.{ℕ, ◌≡◌, refl, Bool, true, false, List, ◌∷◌, ◌++◌, Bytes, codes}

pub base64_value-Takes :
    {a : List ℕ} (elem_name ptname : Bytes)
    → is_plain ptname ≡ true
    → Takes a (base64_value elem_name ptname) a
unfolding scan_brackets read_char
base64_value-Takes elem_name ptname h =
    needs-Takes _
    ∙∙ say_line-Takes _ refl
    ∙∙ say_line-Takes _ refl
    ∙∙ say_line-Takes _ refl
    ∙∙ if-Takes _ _ _ (around-Takes _ ptname _ h refl refl)
        (needs-Takes _ ∙∙ around-Takes _ ptname _ h refl refl)
    ∙∙ say_line-Takes _ refl
    ∙∙ say_line-Takes _ refl
    ∙∙ say_line-Takes _ refl

-- The code of an element goes in two pairs of braces or more.
pub list_value-Takes :
    {a : List ℕ} (ptname : Bytes) (element : Gen)
    → is_plain ptname ≡ true
    → IsBalanced element
    → Takes a (list_value ptname element) a
unfolding scan_brackets read_char
list_value-Takes ptname element h inner =
    say_line-Takes _ refl
    ∙∙ around-Takes _ ptname _ h refl refl
    ∙∙ say_line-Takes _ refl
    ∙∙ say_line-Takes _ refl
    ∙∙ say_line-Takes _ refl
    ∙∙ inner _
    ∙∙ say_line-Takes _ refl
    ∙∙ say_line-Takes _ refl

pub unless_nil-Takes :
    {a : List ℕ} (name : Bytes) (value : Gen)
    → is_plain name ≡ true
    → IsBalanced value
    → Takes a (unless_nil name value) a
unfolding scan_brackets read_char
unless_nil-Takes name value h inner =
    around-Takes _ name _ h refl refl
    ∙∙ inner _
    ∙∙ say_line-Takes _ refl
    ∙∙ say_line-Takes _ refl
    ∙∙ say_line-Takes _ refl

handle_marshaler-Takes :
    {a : List ℕ} (name : Bytes) (is_pointer faster marshaler : Bool)
    → is_plain name ≡ true
    → Takes a (handle_marshaler name is_pointer faster marshaler) a
unfolding handle_marshaler scan_brackets read_char
handle_marshaler-Takes name true faster marshaler h =
    say-Takes _ refl
    ∙∙ around-Takes _ name _ h refl refl
    ∙∙ say-Takes _ refl
    ∙∙ if-Takes faster _ _ (around-Takes _ name _ h refl refl)
        (if-Takes marshaler _ _ (around-Takes _ name _ h refl refl) (say-Takes _ refl))
    ∙∙ say-Takes _ refl
    ∙∙ say-Takes _ refl
    ∙∙ say-Takes _ refl
handle_marshaler-Takes name false faster marshaler h =
    say-Takes _ refl
    ∙∙ say-Takes _ refl
    ∙∙ say-Takes _ refl
    ∙∙ if-Takes faster _ _ (around-Takes _ name _ h refl refl)
        (if-Takes marshaler _ _ (around-Takes _ name _ h refl refl) (say-Takes _ refl))
    ∙∙ say-Takes _ refl
    ∙∙ say-Takes _ refl
    ∙∙ say-Takes _ refl

pub marshaler_value-Takes :
    {a : List ℕ} (objs : List StructInfo) (name : Bytes) (t : Typ)
    → is_plain name ≡ true
    → Takes a (marshaler_value objs name t) a
unfolding marshaler_value
marshaler_value-Takes objs name t h = flush_writes-Takes ∙∙ handle_marshaler-Takes name _ _ _ h

map_value-Takes :
    {a : List ℕ} (name : Bytes) (value : Gen)
    → is_plain name ≡ true
    → IsBalanced value
    → Takes a (map_value name value) a
unfolding scan_brackets read_char
map_value-Takes name value h inner =
    needs-Takes _
    ∙∙ around-Takes _ name _ h refl refl
    ∙∙ queue_write-Takes _ refl
    ∙∙ get_queued-Takes
    ∙∙ drop_write-Takes
    ∙∙ say_line-Takes _ refl
    ∙∙ write_flush-Takes _ refl
    ∙∙ around-Takes _ name _ h refl refl
    ∙∙ say_line-Takes _ refl
    ∙∙ say_line-Takes _ refl
    ∙∙ inner _
    ∙∙ say_line-Takes _ refl
    ∙∙ say_line-Takes _ refl
    ∙∙ say_line-Takes _ refl
    ∙∙ write_flush-Takes _ refl
    ∙∙ say_line-Takes _ refl

pub get_map_value-Takes :
    {a : List ℕ} (i : TypeInfo) (key elem : Typ) (name : Bytes) (value : Gen)
    → ends_comment false i.text ≡ false
    → is_plain name ≡ true
    → IsBalanced value
    → Takes a (get_map_value i key elem name value) a
get_map_value-Takes i key elem name value clear h inner =
    if-Takes _ _ _
      (type_remark-Takes _ i.text _ refl clear refl
        ∙∙ flush_writes-Takes
        ∙∙ encode_call-Takes name h)
      (if-Takes _ _ _ (map_value-Takes name value h inner) (
        flush_writes-Takes
        ∙∙ type_remark-Takes _ i.text _ refl clear refl
        ∙∙ encode_call-Takes name h))

omit_basic-Takes :
    {a : List ℕ} (s : Shape) (ptname : Bytes)
    → is_plain ptname ≡ true
    → Takes a (omit_basic s ptname) (b'{' ∷ a)
unfolding scan_brackets read_char
omit_basic-Takes Shape.signed ptname h = around-Takes _ ptname _ h refl refl
omit_basic-Takes Shape.unsigned ptname h = around-Takes _ ptname _ h refl refl
omit_basic-Takes Shape.single ptname h = around-Takes _ ptname _ h refl refl
omit_basic-Takes Shape.double ptname h = around-Takes _ ptname _ h refl refl
omit_basic-Takes Shape.boolean ptname h = around-Takes _ ptname _ h refl refl
omit_basic-Takes Shape.text ptname h = around-Takes _ ptname _ h refl refl
omit_basic-Takes Shape.dynamic ptname h = around-Takes _ ptname _ h refl refl
omit_basic-Takes Shape.other ptname h = say_line-Takes _ refl

omit_test-Takes :
    {a : List ℕ} (t : Typ) (ptname : Bytes)
    → is_plain ptname ≡ true
    → Takes a (omit_test t ptname) (b'{' ∷ a)
unfolding scan_brackets read_char
omit_test-Takes (basic i k) ptname h = omit_basic-Takes _ ptname h
omit_test-Takes (array i t) ptname h = around-Takes _ ptname _ h refl refl
omit_test-Takes (slice i t) ptname h = around-Takes _ ptname _ h refl refl
omit_test-Takes (ptr i t) ptname h = around-Takes _ ptname _ h refl refl
omit_test-Takes (map i key elem) ptname h = around-Takes _ ptname _ h refl refl
omit_test-Takes (struct i fs) ptname h = say_line-Takes _ refl

get_omit_empty-Takes :
    {a : List ℕ} (sf : StructField) (t : Typ)
    → is_plain sf.name ≡ true
    → Takes a (get_omit_empty sf t) (b'{' ∷ a)
unfolding get_omit_empty scan_brackets read_char
get_omit_empty-Takes sf t h = if-Takes _ _ _ (say_line-Takes _ refl) (omit_test-Takes t _ h)

get_value-Takes :
    {a : List ℕ} (sf : StructField) (t : Typ) (value : Gen)
    → IsBalanced value
    → Takes a (get_value sf t value) a
get_value-Takes sf t value inner =
    if-Takes _ _ _
      (queue_write-Takes _ refl
        ∙∙ inner _
        ∙∙ if-Takes _ _ _ (write_flush-Takes _ refl) (queue_write-Takes _ refl))
      (inner _)

-- What the routine does with the copy does not depend on the writes that are in it.
with_copy-Takes :
    {a b : List ℕ} (f : Gen → Gen)
    → ((null : Gen) → IsBalanced null → Takes a (f null) b)
    → Takes a (with_copy f) b
unfolding with_copy
with_copy-Takes f h = record {
  on = λ st holds.
      (h (λ now. ((flush_queue (push (codes "null") st.queued)).0, now))
          (λ c. record {
            on = λ now holds_now. (
              flush_queue-Brings c (push (codes "null") st.queued)
                  (push-AreHeld (codes "null") st.queued refl holds),
              holds_now,
            );
          })).on
        st holds;
}

field_code-Takes :
    {a : List ℕ} (omit_empty pointer : Bool) (test : Gen) (name json_name : Bytes) (value : Gen)
    → ((b : List ℕ) → Takes b test (b'{' ∷ b))
    → is_plain name ≡ true
    → held (json_name ++ codes ":") ≡ true
    → IsBalanced value
    → Takes a (field_code omit_empty pointer test name json_name value) a
unfolding field_code scan_brackets read_char
field_code-Takes true true test name json_name value h h' h'' inner =
    (flush_writes-Takes ∙∙ around-Takes _ name _ h' refl refl ∙∙ h _)
    ∙∙ say-Takes _ refl
    ∙∙ queue_write-Takes _ h''
    ∙∙ with_copy-Takes _ (λ null balanced. inner _ ∙∙ queue_write-Takes _ refl ∙∙ say-Takes _ refl)
    ∙∙ flush_writes-Takes
    ∙∙ say_line-Takes _ refl
    ∙∙ say_line-Takes _ refl
field_code-Takes true false test name json_name value h h' h'' inner =
    (flush_writes-Takes ∙∙ say-Takes _ refl ∙∙ h _)
    ∙∙ say-Takes _ refl
    ∙∙ queue_write-Takes _ h''
    ∙∙ with_copy-Takes _ (λ null balanced. inner _ ∙∙ queue_write-Takes _ refl ∙∙ say-Takes _ refl)
    ∙∙ flush_writes-Takes
    ∙∙ say-Takes _ refl
    ∙∙ say_line-Takes _ refl
field_code-Takes false true test name json_name value h h' h'' inner =
    say-Takes _ refl
    ∙∙ around-Takes _ name _ h' refl refl
    ∙∙ queue_write-Takes _ h''
    ∙∙ with_copy-Takes _ (λ null balanced.
      inner _
      ∙∙ queue_write-Takes _ refl
      ∙∙ say_line-Takes _ refl
      ∙∙ balanced _
      ∙∙ say_line-Takes _ refl)
    ∙∙ say-Takes _ refl
field_code-Takes false false test name json_name value h h' h'' inner =
    say-Takes _ refl
    ∙∙ say-Takes _ refl
    ∙∙ queue_write-Takes _ h''
    ∙∙ with_copy-Takes _ (λ null balanced. inner _ ∙∙ queue_write-Takes _ refl ∙∙ say-Takes _ refl)
    ∙∙ say-Takes _ refl

-- The code of a field: the names can stand in code, and the name in JSON in a literal.
pub get_field-Takes :
    {a : List ℕ} (sf : StructField) (t : Typ) (name : Bytes) (value : Gen)
    → is_plain sf.name ≡ true
    → is_plain name ≡ true
    → held (sf.json_name ++ codes ":") ≡ true
    → IsBalanced value
    → Takes a (get_field sf t name value) a
get_field-Takes sf t name value h h' h'' inner =
    field_code-Takes _ _ _ name _ _ (λ b. get_omit_empty-Takes sf t h) h' h''
      (λ b. get_value-Takes sf t value inner)

pub take_comma-Takes : {a : List ℕ} (conditional : Bool) → Takes a (take_comma conditional) a
unfolding scan_brackets read_char
take_comma-Takes conditional =
    if-Takes conditional _ _ (flush_writes-Takes ∙∙ say_line-Takes _ refl) drop_write-Takes
