-- ===== src/InceptionTests.antt =====
-- The code generator on a struct.
use ffjson.Inception.Brackets.{Brings}
use ffjson.Inception.Encoder.Balanced.Marshal.{create_marshal_json-Brings}
use ffjson.Inception.Encoder.Balanced.Values.{IsClear, AreClear}
use ffjson.Inception.Encoder.Create.{create_marshal_json}
use ffjson.Inception.Encoder.Field.{get_omit_empty}
use ffjson.Inception.{
  Typ, Fields, StructField, TypeInfo, Inception, around, say, basic, slice, field, end, bool, int64,
  string,
}
use ffjson.Fold.{masked}
use ffjson.Fold.Agrees.{folds_equal}
use ffjson.Inception.Queue.{flush_queue}
use ffjson.Inception.Reflect.Folds.{run_fold-fold_func}
use ffjson.Inception.Reflect.{run_fold, fold_func, by_letters}
use ffjson.Inception.Sizes.{get_buf_grow_size}
use ffjson.Outcome.{ok}
use ffjson.Prelude.{◌≡◌, refl, [], ◌∷◌, true, false, Bytes, codes, arith}

abbrev type_of : Bytes → Bytes → TypeInfo
type_of text name = record {
  id = 0;
  text = text;
  name = name;
  pkg_path = [];
  marshaler_faster = false;
  marshaler = false;
  unmarshaler_faster = false;
  unmarshaler = false;
  size = 8;
}

abbrev counter : StructField
counter = record {
  name = codes "Count";
  json_name = codes "\"count\"";
  omit_empty = true;
  force_string = true;
  pointer = false;
  tagged = true;
}

abbrev finished : StructField
finished = record {
  name = codes "Done";
  json_name = codes "\"done\"";
  omit_empty = false;
  force_string = false;
  pointer = true;
  tagged = true;
}

abbrev names : StructField
names = record {
  name = codes "Names";
  json_name = codes "\"names\"";
  omit_empty = false;
  force_string = false;
  pointer = false;
  tagged = true;
}

abbrev strings : Typ
strings =
    slice (type_of (codes "[]string") []) (basic (type_of (codes "string") (codes "string")) string)

abbrev fields : Fields
fields =
    field counter (basic (type_of (codes "int64") (codes "int64")) int64) (
      field finished (basic (type_of (codes "bool") (codes "bool")) bool) (field names strings end))

abbrev start : Inception
start = record { queued = []; imports = [] }

create_marshal_json-Brings_example :
    Brings [] (create_marshal_json [] (codes "Job") fields start).0 []
    × ((create_marshal_json [] (codes "Job") fields start).1.queued ≡ [])
unfolding IsClear AreClear
create_marshal_json-Brings_example =
    create_marshal_json-Brings [] (codes "Job") fields start
      (refl, refl, refl, (refl, refl, refl, (refl, refl, refl, tt))) refl tt

-- The test for `omitempty` of a field of an inline struct, whose name has the struct's in front.
inner_omit_test :
    (get_omit_empty
      (record counter { name = codes "j.Job.Count" })
      (basic (type_of (codes "int64") (codes "int64")) int64)
      start).0
    ≡ codes "if j.j.Job.Count != 0 {\n"
unfolding get_omit_empty around say
inner_omit_test = refl

letters_test : fold_func (codes "Name") ≡ by_letters
unfolding fold_func masked
letters_test = refl

run_fold-fold_func_example :
    run_fold (λ s t. false) (fold_func (codes "Task_2")) (codes "Task_2") (codes "tASK_2")
    ≡ ok (folds_equal (codes "Task_2") (codes "tASK_2"))
run_fold-fold_func_example =
    run_fold-fold_func (λ s t. false) (codes "Task_2") (codes "tASK_2") (ground arith)
      (ground arith)

-- A struct of 24 bytes with an int64, a bool and a list of strings.
grow_test : get_buf_grow_size (type_of (codes "Job") (codes "Job")) fields ≡ 256
unfolding get_buf_grow_size
grow_test = refl

flush_test :
    flush_queue (codes "{" ∷ codes "\"a\":" ∷ []) ≡ (codes "buf.WriteString(`{\"a\":`)\n", [])
unfolding flush_queue
flush_test = refl
