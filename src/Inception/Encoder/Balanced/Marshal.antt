-- ===== src/Inception/Encoder/Balanced/Marshal.antt =====
-- inception/encoder.go: the brackets of the code that `CreateMarshalJSON` writes.
use ffjson.Inception.Encoder.Balanced.Fields.{take_comma-Takes}
use ffjson.Inception.Encoder.Balanced.Values.{AreClear, get_fields-Takes}
use ffjson.Inception.Encoder.Balanced.{around-Takes, if-Takes}
use ffjson.Inception.Encoder.Create.{marshal_json, marshal_json_buf, create_marshal_json}
use ffjson.Inception.Encoder.Field.{last_conditional}
use ffjson.Inception.Brackets.{scan_brackets, read_char, Brings, is_plain}
use ffjson.Inception.Balanced.{
  AreHeld, Takes, ◌∙∙◌, say-Takes, say_line-Takes, queue_write-Takes, write_flush-Takes,
}
use ffjson.Inception.Queue.{
  push, join, queue_write, write_flush, flush_writes, flush_queue, left_after,
}
use ffjson.Inception.{Fields, StructInfo, Inception, Gen, ◌then◌, say_line, say}
use ffjson.Prelude.{
  ℕ, ◌≡◌, refl, ◌≤◌, true, length, length-append, arith, List, [], ◌∷◌, if◌then◌else◌, Bytes, codes,
}

marshal_json-Takes : (name : Bytes) → is_plain name ≡ true → Takes [] (marshal_json name) []
unfolding scan_brackets read_char
marshal_json-Takes name h =
    say-Takes _ refl
    ∙∙ around-Takes _ name _ h refl refl
    ∙∙ say_line-Takes _ refl
    ∙∙ say_line-Takes _ refl
    ∙∙ say_line-Takes _ refl
    ∙∙ say_line-Takes _ refl
    ∙∙ say_line-Takes _ refl
    ∙∙ say_line-Takes _ refl
    ∙∙ say_line-Takes _ refl
    ∙∙ say_line-Takes _ refl
    ∙∙ say_line-Takes _ refl
    ∙∙ say_line-Takes _ refl
    ∙∙ say_line-Takes _ refl

marshal_json_buf-Takes :
    (name : Bytes) → is_plain name ≡ true → Takes [] (marshal_json_buf name) (b'{' ∷ [])
unfolding scan_brackets read_char
marshal_json_buf-Takes name h =
    say-Takes _ refl
    ∙∙ around-Takes _ name _ h refl refl
    ∙∙ say_line-Takes _ refl
    ∙∙ say_line-Takes _ refl
    ∙∙ say_line-Takes _ refl
    ∙∙ say_line-Takes _ refl
    ∙∙ say_line-Takes _ refl
    ∙∙ say_line-Takes _ refl
    ∙∙ say_line-Takes _ refl
    ∙∙ say_line-Takes _ refl

create_marshal_json-Takes :
    (objs : List StructInfo) (name : Bytes) (fields : Fields)
    → AreClear fields
    → is_plain name ≡ true
    → Takes [] (create_marshal_json objs name fields) []
unfolding create_marshal_json scan_brackets read_char
create_marshal_json-Takes objs name fields clear h =
    marshal_json-Takes name h
    ∙∙ marshal_json_buf-Takes name h
    ∙∙ queue_write-Takes _ refl
    ∙∙ if-Takes _ _ _ (queue_write-Takes _ refl) (say-Takes _ refl)
    ∙∙ get_fields-Takes objs [] (codes "j.") fields clear refl refl _
    ∙∙ take_comma-Takes (last_conditional fields)
    ∙∙ write_flush-Takes _ refl
    ∙∙ say_line-Takes _ refl
    ∙∙ say_line-Takes _ refl

left_after-full : (t : Bytes) (queued : List Bytes) → 1 ≤ length t → left_after t queued ≡ []
left_after-full [] queued h = absurd (omega arith)
left_after-full (c ∷ t) queued h = refl

join-push : (c : ℕ) (queued : List Bytes) → 1 ≤ length (join (push (c ∷ []) queued))
unfolding join push
join-push c [] = omega arith
join-push c (s ∷ queued) =
    let e = length-append s (join (push (c ∷ []) queued)) in omega (arith, e, join-push c queued)

-- A routine that leaves no write pending.
record Empties (g : Gen) : Type 0 where
  on : (s : Inception) → (g s).1.queued ≡ []

then-Empties : {h : Gen} (g : Gen) → Empties h → Empties (g then h)
unfolding ◌then◌
then-Empties {h} g empties = record { on = λ s. empties.on (g s).1 }

closing-Empties :
    Empties (write_flush (codes "}") then say_line (codes "return nil") then say_line (codes "}"))
unfolding ◌then◌ say_line say queue_write flush_writes flush_queue
closing-Empties = record { on = λ s. left_after-full _ _ (join-push b'}' s.queued) }

create_marshal_json-Empties :
    (objs : List StructInfo) (name : Bytes) (fields : Fields)
    → Empties (create_marshal_json objs name fields)
unfolding create_marshal_json
create_marshal_json-Empties objs name fields = then-Empties _ (
    then-Empties _
      (then-Empties _ (then-Empties _ (then-Empties _ (then-Empties _ closing-Empties)))))

-- For a struct whose name can stand in code, and whose fields have names that can, names in JSON that
-- can stand in a literal, and types whose text ends no comment, from a state whose pending writes, if
-- any, stay in the literals that they are written in: in the code of its `MarshalJSON` and
-- `MarshalJSONBuf` the brackets match, literals and comments aside, whatever its fields are and
-- whichever of them are left out when empty, quoted or pointers; and no write is left pending.
pub create_marshal_json-Brings :
    (objs : List StructInfo) (name : Bytes) (fields : Fields) (s : Inception)
    → AreClear fields
    → is_plain name ≡ true
    → AreHeld s.queued
    → Brings [] (create_marshal_json objs name fields s).0 []
      × ((create_marshal_json objs name fields s).1.queued ≡ [])
create_marshal_json-Brings objs name fields s clear h holds = (
  ((create_marshal_json-Takes objs name fields clear h).on s holds).0,
  (create_marshal_json-Empties objs name fields).on s,
)
