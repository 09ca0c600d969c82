-- ===== src/Buffer/Queue.antt =====
-- What a client of `Buffer` sees: the methods as calls with replies, and a queue of bytes that answers
-- the same calls.
use ffjson.Buffer.{
  Buffer, len, truncate, reset, grow_to, write, write_string, write_byte, put_rune, write_rune,
}
use ffjson.Buffer.Reads.{rewind, read, next, read_byte, read_rune, read_slice}
use ffjson.Go.Utf8
use ffjson.Outcome.{Outcome, ok, Fault, ◌>>=◌}
use ffjson.Pool.{Slice, Pools}
use ffjson.Prelude.{
  ℕ, ◌-◌, Option, none, some, List, [], ◌∷◌, ◌++◌, leb, ◌==◌, if◌then◌else◌, Bytes, length, take,
  drop,
}

pub data Call : Type 0 where
  write_bytes : Bytes → Call
  write_text : Bytes → Call
  write_one : ℕ → Call
  write_a_rune : ℕ → Call
  make_place : ℕ → Call
  keep_first : ℕ → Call
  clear : Call
  drop_last : ℕ → Call
  read_some : ℕ → Call
  next_some : ℕ → Call
  read_one : Call
  read_a_rune : Call
  read_until : ℕ → Call
  ask_length : Call

pub data Reply : Type 0 where
  done : Reply
  count : ℕ → Reply
  got : Bytes → Option Fault → Reply
  one_byte : Option ℕ → Reply
  one_rune : Option (ℕ × ℕ) → Reply

-- The first line with its delimiter, or all with `io.EOF`; and what is left.
unfoldable pub line : ℕ → Bytes → (Bytes × Option Fault) × Bytes
line delim [] = (([], some Fault.eof), [])
line delim (c ∷ t) =
    let ((front, e), rest) = line delim t in
    if c == delim then ((c ∷ [], none), t) else ((c ∷ front, e), rest)

abbrev pub read_queue : ℕ → Bytes → Reply × Bytes
read_queue k [] = (got [] (if k == 0 then none else some Fault.eof), [])
read_queue k (c ∷ q) = (got (take k (c ∷ q)) none, drop k (c ∷ q))

abbrev pub byte_queue : Bytes → Reply × Bytes
byte_queue [] = (one_byte none, [])
byte_queue (c ∷ q) = (one_byte (some c), q)

abbrev pub rune_queue : Bytes → Reply × Bytes
rune_queue [] = (one_rune none, [])
rune_queue (c ∷ q) =
    (one_rune (some (Utf8.decode_rune (c ∷ q))), drop (Utf8.decode_rune (c ∷ q)).1 (c ∷ q))

-- A queue's answer; `none` for a call that asks to keep or to drop more than there is.
unfoldable pub answer : Call → Bytes → Option (Reply × Bytes)
answer (write_bytes src) q = some (count (length src), q ++ src)
answer (write_text src) q = some (count (length src), q ++ src)
answer (write_one c) q = some (done, q ++ c ∷ [])
answer (write_a_rune r) q = some (count (length (write_rune r)), q ++ write_rune r)
answer (make_place n) q = some (done, q)
answer (keep_first n) q = if leb n (length q) then some (done, take n q) else none
answer clear q = some (done, [])
answer (drop_last n) q = if leb n (length q) then some (done, take (length q - n) q) else none
answer (read_some k) q = some (read_queue k q)
answer (next_some n) q = some (got (take n q) none, drop n q)
answer read_one q = some (byte_queue q)
answer read_a_rune q = some (rune_queue q)
answer (read_until delim) q = let ((front, e), rest) = line delim q in some (got front e, rest)
answer ask_length q = some (count (length q), q)

-- The answers to some calls in order.
unfoldable pub answers : List Call → Bytes → Option (List Reply × Bytes)
answers [] q = some ([], q)
answers (c ∷ cs) q = elim (answer c q) [
  | none ↦ none
  | some (r, q') ↦ elim (answers cs q') [ none ↦ none | some (rs, q'') ↦ some (r ∷ rs, q'') ]
]

module _ (pick : List Slice → Option ℕ) where
  -- A call to the buffer.
  unfoldable pub call : Call → Buffer → Pools → Outcome (Reply × Buffer × Pools)
  call (write_bytes src) b p = write pick src b p >>= λ (n, b', p'). ok (count n, b', p')
  call (write_text src) b p = write_string pick src b p >>= λ (n, b', p'). ok (count n, b', p')
  call (write_one c) b p = write_byte pick c b p >>= λ (b', p'). ok (done, b', p')
  call (write_a_rune r) b p = put_rune pick r b p >>= λ (n, b', p'). ok (count n, b', p')
  call (make_place n) b p = grow_to pick n b p >>= λ (b', p'). ok (done, b', p')
  call (keep_first n) b p = truncate n b >>= λ b'. ok (done, b', p)
  call clear b p = ok (done, reset b, p)
  call (drop_last n) b p = rewind n b >>= λ b'. ok (done, b', p)
  call (read_some k) b p = let ((front, e), b') = read k b in ok (got front e, b', p)
  call (next_some n) b p = let (front, b') = next n b in ok (got front none, b', p)
  call read_one b p = read_byte b >>= λ (o, b'). ok (one_byte o, b', p)
  call read_a_rune b p = read_rune b >>= λ (o, b'). ok (one_rune o, b', p)
  call (read_until delim) b p = let ((front, e), b') = read_slice delim b in ok (got front e, b', p)
  call ask_length b p = ok (count (len b), b, p)

  unfoldable pub calls : List Call → Buffer → Pools → Outcome (List Reply × Buffer × Pools)
  calls [] b p = ok ([], b, p)
  calls (c ∷ cs) b p =
      call c b p >>= λ (r, b', p'). calls cs b' p' >>= λ (rs, b'', p''). ok (r ∷ rs, b'', p'')
