-- ===== src/Inception/Encoder/Balanced.antt =====
-- inception/encoder.go: the brackets of the code for a value.
pub mod Fields
pub mod Values
pub mod Marshal
use ffjson.Inception.Encoder.Kinds.{Shape, kind_text}
use ffjson.Inception.Encoder.Field.{map_value}
use ffjson.Inception.Encoder.{
  encode_call, type_remark, fallback, basic_value, string_value, bool_value, base64_value,
  list_value, unless_nil, handle_marshaler,
}
use ffjson.Inception.Brackets.{
  code, comment, scan_brackets, read_char, Brings, Brings-append, scan_brackets-append, is_plain,
  is_plain-Brings, ends_comment, in_comment, comment_scan,
}
use ffjson.Inception.Balanced.{
  Takes, ◌∙∙◌, say-Takes, say_line-Takes, needs-Takes, queue_write-Takes, drop_write-Takes,
  flush_writes-Takes, get_queued-Takes, write_flush-Takes,
}
use ffjson.Inception.{
  Kind, bool, int, int8, int16, int32, int64, uint, uint8, uint16, uint32, uint64, uintptr, float32,
  float64, complex64, complex128, chan, func, interface, string, unsafe_pointer, TypeInfo, Gen,
  ◌then◌, say, say_line, around,
}
use ffjson.Prelude.{
  ℕ, ◌≡◌, refl, ◌∙◌, ap, append_assoc, Bool, true, false, List, [], ◌∷◌, ◌++◌, ◌&&◌, if◌then◌else◌,
  Bytes, bytes_eq, codes,
}

pub around-Takes :
    {a b c : List ℕ} (before name after : Bytes)
    → is_plain name ≡ true
    → Brings a before b
    → Brings b after c
    → Takes a (around before name after) c
unfolding around
around-Takes {a} {b} {c} before name after h goes goes' = say-Takes (before ++ (name ++ after)) (
    Brings-append a b c before (name ++ after) goes
      (Brings-append b b c name after (is_plain-Brings b name h) goes'))

pub if-Takes :
    {a b : List ℕ} (test : Bool) (g h : Gen)
    → Takes a g b
    → Takes a h b
    → Takes a (if test then g else h) b
if-Takes true g h on_true on_false = on_true
if-Takes false g h on_true on_false = on_false

pub encode_call-Takes :
    {a : List ℕ} (name : Bytes) → is_plain name ≡ true → Takes a (encode_call name) a
unfolding scan_brackets read_char
encode_call-Takes name h =
    around-Takes _ name _ h refl refl
    ∙∙ say_line-Takes _ refl
    ∙∙ say_line-Takes _ refl
    ∙∙ say_line-Takes _ refl

-- A type shown in a comment, and a kind.
pub type_remark-Takes :
    {a : List ℕ} (words typ kind : Bytes)
    → ends_comment false words ≡ false
    → ends_comment false typ ≡ false
    → ends_comment false kind ≡ false
    → Takes a (type_remark words typ kind) a
unfolding type_remark scan_brackets read_char
type_remark-Takes {a} words typ kind h h' h'' =
    let last = codes "kind=" ++ (kind ++ codes " */") in
    let middle = codes "type=" ++ (typ ++ b' ' ∷ last) in
    let in_words : scan_brackets comment a (words ++ b' ' ∷ middle)
        ≡ scan_brackets comment a middle =
      comment_scan a false words middle h in
    let in_typ : scan_brackets comment a middle ≡ scan_brackets comment a last =
      comment_scan a false typ last h' in
    let in_kind : scan_brackets comment a last ≡ scan_brackets comment a (codes "*/") =
      comment_scan a false kind (codes "*/") h'' in
    let entered : scan_brackets code a (codes "/* " ++ (words ++ b' ' ∷ middle))
        ≡ scan_brackets comment a (words ++ b' ' ∷ middle) =
      refl in
    let e : Brings a (codes "/* " ++ (words ++ b' ' ∷ middle)) a =
      entered ∙ in_words ∙ in_typ ∙ in_kind in
    say_line-Takes (codes "/* " ++ (words ++ b' ' ∷ middle)) e

kind_text-ends : (k : Kind) → ends_comment false (kind_text k) ≡ false
kind_text-ends bool = refl
kind_text-ends int = refl
kind_text-ends int8 = refl
kind_text-ends int16 = refl
kind_text-ends int32 = refl
kind_text-ends int64 = refl
kind_text-ends uint = refl
kind_text-ends uint8 = refl
kind_text-ends uint16 = refl
kind_text-ends uint32 = refl
kind_text-ends uint64 = refl
kind_text-ends uintptr = refl
kind_text-ends float32 = refl
kind_text-ends float64 = refl
kind_text-ends complex64 = refl
kind_text-ends complex128 = refl
kind_text-ends chan = refl
kind_text-ends func = refl
kind_text-ends interface = refl
kind_text-ends string = refl
kind_text-ends unsafe_pointer = refl

bool_value-Takes :
    {a : List ℕ} (ptname : Bytes) → is_plain ptname ≡ true → Takes a (bool_value ptname) a
unfolding scan_brackets read_char
bool_value-Takes ptname h =
    around-Takes _ ptname _ h refl refl
    ∙∙ queue_write-Takes _ refl
    ∙∙ get_queued-Takes
    ∙∙ say_line-Takes _ refl
    ∙∙ drop_write-Takes
    ∙∙ write_flush-Takes _ refl
    ∙∙ say_line-Takes _ refl

string_value-Takes :
    {a : List ℕ} (i : TypeInfo) (name ptname : Bytes) (force_string : Bool)
    → is_plain name ≡ true
    → is_plain ptname ≡ true
    → Takes a (string_value i name ptname force_string) a
unfolding scan_brackets read_char
string_value-Takes i name ptname force_string h h' =
    if-Takes _ _ _ (say_line-Takes _ refl ∙∙ encode_call-Takes name h) (
      needs-Takes _
      ∙∙ if-Takes force_string _ _
          (say_line-Takes _ refl
            ∙∙ say_line-Takes _ refl
            ∙∙ around-Takes _ ptname _ h' refl refl
            ∙∙ around-Takes _ ptname _ h' refl refl
            ∙∙ say_line-Takes _ refl
            ∙∙ say_line-Takes _ refl)
          (around-Takes _ ptname _ h' refl refl))

pub basic_value-Takes :
    {a : List ℕ} (i : TypeInfo) (k : Kind) (s : Shape) (name ptname : Bytes) (force_string : Bool)
    → ends_comment false i.text ≡ false
    → is_plain name ≡ true
    → is_plain ptname ≡ true
    → Takes a (basic_value i k s name ptname force_string) a
unfolding basic_value scan_brackets read_char
basic_value-Takes i k Shape.signed name ptname force_string clear h h' =
    needs-Takes _ ∙∙ around-Takes _ ptname _ h' refl refl ∙∙ around-Takes _ ptname _ h' refl refl
basic_value-Takes i k Shape.unsigned name ptname force_string clear h h' =
    needs-Takes _ ∙∙ around-Takes _ ptname _ h' refl refl
basic_value-Takes i k Shape.single name ptname force_string clear h h' =
    needs-Takes _ ∙∙ around-Takes _ ptname _ h' refl refl
basic_value-Takes i k Shape.double name ptname force_string clear h h' =
    needs-Takes _ ∙∙ around-Takes _ ptname _ h' refl refl
basic_value-Takes i k Shape.boolean name ptname force_string clear h h' = bool_value-Takes ptname h'
basic_value-Takes i k Shape.text name ptname force_string clear h h' =
    string_value-Takes i name ptname force_string h h'
basic_value-Takes i k Shape.dynamic name ptname force_string clear h h' =
    type_remark-Takes _ i.text _ refl clear (kind_text-ends k) ∙∙ encode_call-Takes name h
basic_value-Takes i k Shape.other name ptname force_string clear h h' =
    type_remark-Takes _ i.text _ refl clear (kind_text-ends k) ∙∙ encode_call-Takes name h
