-- ===== src/Buffer/Refine.antt =====
-- fflib/v1/buffer.go: a buffer answers its calls as a queue of bytes does.
use ffjson.Buffer.{Buffer, array, bytes, reset}
use ffjson.Buffer.Appends.{
  Models, bytes_front, advanced, appended, written, write_byte-Models, put_rune-Models,
  grow_to-Models,
}
use ffjson.Buffer.Queue
use ffjson.Buffer.Queue.{Call, Reply, line, answer, answers, call, calls}
use ffjson.Buffer.Reads.{read_slice, read_to, index_byte}
use ffjson.Buffer.Takes.{
  length-view, truncate-Models, reset-Models, rewind-Models, read-Models_nil, read-Models_cons,
  next-Models, read_byte-nil, read_byte-cons, read_rune-nil, read_rune-cons,
}
use ffjson.Outcome.{Outcome, ok, Fault}
use ffjson.Pool.{Slice, Pools}
use ffjson.Prelude.{
  ℕ, suc, ◌+◌, ◌-◌, ◌<◌, ◌≡◌, refl, ap, ◌∙◌, inl, inr, Option, none, some, List, [], ◌∷◌, leb,
  leb→le, ◌==◌, Bool-cases, Option-cases, Bytes, length, take, drop, slice, arith,
}

-- The line that ends at a position, or all.
line_at : Bytes → Option ℕ → (Bytes × Option Fault) × Bytes
line_at q none = ((q, some Fault.eof), [])
line_at q (some i) = ((take (suc i) q, none), drop (suc i) q)

line-index_byte : (delim : ℕ) (q : Bytes) → line delim q ≡ line_at q (index_byte q delim)
unfolding line line_at index_byte
line-index_byte delim [] = refl
line-index_byte delim (c ∷ t) = elim (Bool-cases (c == delim)) [
  | inl here ↦ rw here refl
  | inr other ↦ elim (Option-cases (index_byte t delim)) [
    | inl out ↦ rw (other, line-index_byte delim t, out) refl
    | inr (i, found) ↦ rw (other, line-index_byte delim t, found) refl
  ]
]

index_byte-lt : (delim : ℕ) (q : Bytes) {i : ℕ} → index_byte q delim ≡ some i → i < length q
unfolding index_byte
index_byte-lt delim [] h = cc
index_byte-lt delim (c ∷ t) {i} h = elim (Bool-cases (c == delim)) [
  | inl here ↦ ground (arith, h, here)
  | inr other ↦ elim (Option-cases (index_byte t delim)) [
    | inl out ↦ cc (rw (other, out) at h)
    | inr (j, found) ↦
        let h' = rw (other, found) at h in ground (arith, h', index_byte-lt delim t found)
  ]
]

-- A call returns this reply and leaves a buffer that holds this queue.
abbrev pub Gives : Outcome (Reply × Buffer × Pools) → Reply → Bytes → Type 0
Gives o r q = (b' : Buffer) × (p' : Pools) × (o ≡ ok (r, b', p')) × Models q b' p'

read_slice-Models :
    (delim : ℕ) (q : Bytes) (b : Buffer) (p : Pools)
    → Models q b p
    → (b' : Buffer) × (read_slice delim b ≡ ((line delim q).0, b')) × Models (line delim q).1 b' p
unfolding read_slice read_to line_at
read_slice-Models delim q b p m = elim (Option-cases (index_byte q delim)) [
  | inl out ↦ (
    record b { off = b.used },
    rw (line-index_byte delim q, m.view, out)
        (ap (λ (v : Bytes). ((v, some Fault.eof), record b { off = b.used })) m.view),
    rw (line-index_byte delim q, out) (drained b p m),
  )
  | inr (i, found) ↦
      let lt = index_byte-lt delim q found in
      let e : b.off + i + 1 ≡ b.off + suc i = omega arith in
      let front : slice (array b.buf) b.off (b.off + suc i) ≡ take (suc i) q =
        bytes_front b (suc i) m.in_order (omega (arith, lt, length-view b p m))
        ∙ ap (take (suc i)) m.view in
      (
        record b { off = b.off + suc i },
        rw (line-index_byte delim q, m.view, found, e, front) refl,
        rw (line-index_byte delim q, found) (advanced b p (suc i) m (omega (arith, lt))),
      )
]
  where
    drained : (b : Buffer) (p : Pools) → Models q b p → Models [] (record b { off = b.used }) p
    drained b p m =
        let none_left : b.used - b.used ≡ 0 = omega arith in
        record {
          view = unfold bytes in rw none_left refl;
          in_order = record { ordered = omega arith; inside = m.in_order.inside };
          flag = m.flag;
          sized = m.sized;
        }

answered :
    {R : Type 0} {x r : R} {y q : Bytes}
    → ◌≡◌ {A = Option (R × Bytes)} (some (x, y)) (some (r, q))
    → (x ≡ r) × (y ≡ q)
answered h = (cc, cc)

module _ (pick : List Slice → Option ℕ) where
  given :
      {o : Outcome (Reply × Buffer × Pools)} {x r : Reply} {y q : Bytes}
      → Gives o x y
      → ◌≡◌ {A = Option (Reply × Bytes)} (some (x, y)) (some (r, q))
      → Gives o r q
  given g h = let (same_reply, same_queue) = answered h in rw (← same_reply, ← same_queue) g

  -- A call that a queue answers gets the same answer from a buffer that holds the queue.
  pub call-answer :
      (c : Call) (q : Bytes) (b : Buffer) (p : Pools) {r : Reply} {q' : Bytes}
      → Models q b p
      → answer c q ≡ some (r, q')
      → Gives (call pick c b p) r q'
  unfolding call answer
  call-answer (Queue.write_bytes src) q b p m h =
      let (b', p', done, m') = written pick b p m src in given (b', p', rw done refl, m') h
  call-answer (Queue.write_text src) q b p m h =
      let (b', p', done, m') = appended pick b p m src in given (b', p', rw done refl, m') h
  call-answer (Queue.write_one c) q b p m h =
      let (b', p', done, m') = write_byte-Models pick b p m c in given (b', p', rw done refl, m') h
  call-answer (Queue.write_a_rune r) q b p m h =
      let (b', p', done, m') = put_rune-Models pick b p m r in given (b', p', rw done refl, m') h
  call-answer (Queue.make_place n) q b p m h =
      let (b', p', done, m') = grow_to-Models pick b p m n in given (b', p', rw done refl, m') h
  call-answer (Queue.keep_first n) q b p m h = elim (Bool-cases (leb n (length q))) [
    | inl fits ↦
        let (b', done, m') = truncate-Models b p m n (leb→le n (length q) fits) in
        given (b', p, rw done refl, m') (rw fits at h)
    | inr short ↦ cc (rw short at h)
  ]
  call-answer Queue.clear q b p m h = given (reset b, p, refl, reset-Models b p m) h
  call-answer (Queue.drop_last n) q b p m h = elim (Bool-cases (leb n (length q))) [
    | inl fits ↦
        let (b', done, m') = rewind-Models b p m n (leb→le n (length q) fits) in
        given (b', p, rw done refl, m') (rw fits at h)
    | inr short ↦ cc (rw short at h)
  ]
  call-answer (Queue.read_some k) [] b p m h =
      let (done, m') = read-Models_nil k b p m in given (reset b, p, rw done refl, m') h
  call-answer (Queue.read_some k) (c ∷ q) b p m h =
      let (b', done, m') = read-Models_cons k c q b p m in given (b', p, rw done refl, m') h
  call-answer (Queue.next_some n) q b p m h =
      let (b', done, m') = next-Models n q b p m in given (b', p, rw done refl, m') h
  call-answer Queue.read_one [] b p m h =
      let (done, m') = read_byte-nil b p m in given (reset b, p, rw done refl, m') h
  call-answer Queue.read_one (c ∷ q) b p m h =
      let (b', done, m') = read_byte-cons c q b p m in given (b', p, rw done refl, m') h
  call-answer Queue.read_a_rune [] b p m h =
      let (done, m') = read_rune-nil b p m in given (reset b, p, rw done refl, m') h
  call-answer Queue.read_a_rune (c ∷ q) b p m h =
      let (b', done, m') = read_rune-cons c q b p m in given (b', p, rw done refl, m') h
  call-answer (Queue.read_until delim) q b p m h =
      let (b', done, m') = read_slice-Models delim q b p m in given (b', p, rw done refl, m') h
  call-answer Queue.ask_length q b p m h = given (b, p, rw (length-view b p m) refl, m) h

  -- A buffer is a queue of bytes: calls that a queue answers, in any order, get the same replies from a
  -- buffer that holds the queue and sized pools, without a panic, and leave it holding what the queue
  -- has.
  pub calls-answers :
      (cs : List Call) (q : Bytes) (b : Buffer) (p : Pools) {rs : List Reply} {q' : Bytes}
      → Models q b p
      → answers cs q ≡ some (rs, q')
      → (b' : Buffer) × (p' : Pools) × (calls pick cs b p ≡ ok (rs, b', p')) × Models q' b' p'
  unfolding calls answers
  calls-answers [] q b p m h =
      let (same_replies, same_queue) = answered h in
      (b, p, rw same_replies refl, rw same_queue at m)
  calls-answers (c ∷ cs) q b p m h = elim (Option-cases (answer c q)) [
    | inl out ↦ cc (rw (answers, out) at h)
    | inr ((r, q1), first) ↦
        let (b1, p1, done, m1) = call-answer c q b p m first in
        elim (Option-cases (answers cs q1)) [
          | inl out ↦ cc (rw (answers, first, out) at h)
          | inr ((rs', q2), rest) ↦
              let (b2, p2, all_done, m2) = calls-answers cs q1 b1 p1 m1 rest in
              let (same_replies, same_queue) = answered (rw (answers, first, rest) at h) in
              (b2, p2, rw (done, all_done, same_replies) refl, rw same_queue at m2)
        ]
  ]
