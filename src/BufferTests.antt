-- ===== src/BufferTests.antt =====
-- Runs of the buffer and the pools on small inputs, and their theorems at inputs that meet the
-- hypotheses.
use ffjson.Buffer.{Buffer, bytes, len}
use ffjson.Buffer.Appends.{Models}
use ffjson.Buffer.Queue
use ffjson.Buffer.Queue.{Call, Reply, answer, answers, call, calls, line}
use ffjson.Buffer.Refine.{calls-answers}
use ffjson.Buffer.ReadFrom.{Delivers, read_from, read_from-Models}
use ffjson.Buffer.Transfers.{write_to, write_to-Models, sent_result}
use ffjson.Outcome.{Fault, Outcome, ok, err}
use ffjson.Pool.{Slice, Pools, cap, make_slice, pool, pool_num}
use ffjson.Pool.Sizes.{no_items, Reached, make_slice-Reached}
use ffjson.Prelude.{
  ℕ, ◌≤◌, ◌≡◌, ◌≢◌, refl, false, Option, none, some, List, [], ◌∷◌, Bytes, codes, replicate, arith,
}

-- A pool that always makes a new array.
abbrev pick_none : List Slice → Option ℕ
pick_none xs = none

make_slice-Reached_example :
    (s : Slice) × (p' : Pools) × (make_slice pick_none 100 no_items ≡ ok (s, p'))
    × (100 ≤ cap s)
    × Reached pick_none p'
make_slice-Reached_example = make_slice-Reached pick_none 100 no_items Reached.start

abbrev empty_buffer : Buffer
empty_buffer = record { buf = none; used = 0; off = 0; skip_trailing_byte = false }

empty_buffer-Models : Models [] empty_buffer no_items
unfolding bytes
empty_buffer-Models = record {
  view = refl;
  in_order = record { ordered = omega arith; inside = omega arith };
  flag = refl;
  sized = record { sized = λ pn. tt };
}

abbrev some_calls : List Call
some_calls =
    Queue.write_bytes (codes "ab\nc")
    ∷ Queue.read_one
    ∷ Queue.read_until b'\n'
    ∷ Queue.drop_last 1
    ∷ Queue.read_some 2
    ∷ []

abbrev some_replies : List Reply
some_replies =
    Queue.count 4
    ∷ Queue.one_byte (some b'a')
    ∷ Queue.got (codes "b\n") none
    ∷ Queue.done
    ∷ Queue.got [] (some Fault.eof)
    ∷ []

some-answers : answers some_calls [] ≡ some (some_replies, [])
unfolding answers answer line
some-answers = refl

calls-answers_example :
    (b' : Buffer) × (p' : Pools) × (calls pick_none some_calls empty_buffer no_items
      ≡ ok (some_replies, b', p'))
    × Models [] b' p'
calls-answers_example =
    calls-answers pick_none some_calls [] empty_buffer no_items empty_buffer-Models some-answers

abbrev hi_buffer : Buffer
hi_buffer = record {
  buf = some (record { id = 0; bytes = codes "-hi" });
  used = 3;
  off = 1;
  skip_trailing_byte = false;
}

hi_buffer-Models : Models (codes "hi") hi_buffer no_items
unfolding bytes
hi_buffer-Models = record {
  view = refl;
  in_order = record { ordered = omega arith; inside = omega arith };
  flag = refl;
  sized = record { sized = λ pn. tt };
}

abbrev one_byte_writer : Bytes → ℕ × Option Fault
one_byte_writer q = (1, none)

not_empty : codes "hi" ≢ []
not_empty h = cc

write_to-Models_example :
    (b' : Buffer) × (write_to one_byte_writer hi_buffer ≡ ok (sent_result 2 (1, none), b'))
    × Models (codes "i") b' no_items
write_to-Models_example =
    write_to-Models one_byte_writer (codes "hi") hi_buffer no_items hi_buffer-Models not_empty
      (omega arith)

abbrev full_slice : Slice
full_slice = record { id = 7; bytes = replicate 1000 0 }

-- Two answers, the second with the end of the input.
abbrev there_answers : List (Bytes × Option Fault)
there_answers = (codes " th", none) ∷ (codes "ere", some Fault.eof) ∷ []

there_answers-Delivers : Delivers there_answers (codes " there") none
there_answers-Delivers = Delivers.next_chunk (omega arith) (Delivers.last_chunk (omega arith))

read_from-Models_example :
    (b' : Buffer) × (p' : Pools) × (read_from pick_none there_answers hi_buffer no_items
      ≡ ok ((6, none), b', p'))
    × Models (codes "hi there") b' p'
read_from-Models_example =
    read_from-Models pick_none there_answers (codes " there") none (codes "hi") hi_buffer no_items
      there_answers-Delivers hi_buffer-Models

-- The ids of the first array in the pool and of the buffer's own.
abbrev shared_ids : ℕ → Outcome ((ℕ × Option Fault) × Buffer × Pools) → Option ℕ × Option ℕ
shared_ids pn (err e) = (none, none)
shared_ids pn (ok (n, b, p)) = (first_id (p.items pn), slice_id b.buf)
  where
    first_id : List Slice → Option ℕ
    first_id [] = none
    first_id (s ∷ t) = some s.id

    slice_id : Option Slice → Option ℕ
    slice_id none = none
    slice_id (some s) = some s.id

-- The array that goes to the pool is still the buffer's.
full_buffer_shared :
    shared_ids 3 (
      read_from pick_none
        (([], some Fault.eof) ∷ [])
        (record { buf = some full_slice; used = 1000; off = 600; skip_trailing_byte = false })
        no_items)
    ≡ (some 7, some 7)
unfolding read_from pool_num pool bytes len
full_buffer_shared = refl
