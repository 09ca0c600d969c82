-- ===== src/Buffer/Transfers.antt =====
-- fflib/v1/buffer.go: `WriteTo`.
use ffjson.Buffer.{Buffer, bytes, len, reset}
use ffjson.Buffer.Appends.{Models, advanced}
use ffjson.Buffer.Takes.{used_view, length-view, reset-Models}
use ffjson.Outcome.{Outcome, ok, err, Fault}
use ffjson.Pool.{Pools}
use ffjson.Prelude.{
  ℕ, ◌+◌, ◌≤◌, ◌<◌, ◌≡◌, ◌≢◌, refl, inl, inr, Option, none, some, [], ◌∷◌, ltb, lt→ltb, le→ltb,
  ◌==◌, ==_iff, drop_all, if◌then◌else◌, Bool-cases, Bytes, length, drop, arith,
}

-- What `WriteTo` returns: the count, with no error, the writer's, or `io.ErrShortWrite`.
pub data Sent : Type 0 where
  sent : ℕ → Sent
  failed : ℕ → Fault → Sent
  short_write : ℕ → Sent

-- Behind the writer's answer, `n` bytes having been handed to it.
pub after_write : Buffer → ℕ → ℕ × Option Fault → Outcome (Sent × Buffer)
after_write b n (m, some e) =
    if ltb n m then err Fault.panic else ok (failed m e, record b { off = b.off + m })
after_write b n (m, none) =
    if ltb n m
    then err Fault.panic
    else if m == n
    then ok (sent m, reset b)
    else ok (short_write m, record b { off = b.off + m })

-- `writer` answers `w.Write` with a count and an error.
unfoldable pub write_to : (Bytes → ℕ × Option Fault) → Buffer → Outcome (Sent × Buffer)
unfolding after_write
write_to writer b =
    if ltb b.off b.used then after_write b (len b) (writer (bytes b)) else ok (sent 0, reset b)

-- What a writer that took `m` of `n` bytes makes of the call.
abbrev pub sent_result : ℕ → ℕ × Option Fault → Sent
sent_result n (m, some e) = failed m e
sent_result n (m, none) = if m == n then sent m else short_write m

after_write-Models :
    (q : Bytes) (b : Buffer) (p : Pools) (a : ℕ × Option Fault)
    → Models q b p
    → a.0 ≤ length q
    → (b' : Buffer) × (after_write b (length q) a ≡ ok (sent_result (length q) a, b'))
      × Models (drop a.0 q) b' p
unfolding after_write
after_write-Models q b p (m, some e) held le =
    (record b { off = b.off + m }, rw (le→ltb (length q) m le) refl, advanced b p m held le)
after_write-Models q b p (m, none) held le = elim (Bool-cases (m == length q)) [
  | inl all ↦
      let none_left : drop m q ≡ [] = drop_all q m (omega (arith, (==_iff m (length q)).0 all)) in
      (reset b, rw (le→ltb (length q) m le, all) refl, rw none_left (reset-Models b p held))
  | inr short ↦ (
    record b { off = b.off + m },
    rw (le→ltb (length q) m le, short) refl,
    advanced b p m held le,
  )
]

-- `WriteTo` of a buffer that is not empty, to a writer that takes no more than it is given: the
-- writer's error, or `io.ErrShortWrite` if it took less and gave none, or the count; what it took is
-- gone from the buffer, and the rest is kept.
pub write_to-Models :
    (writer : Bytes → ℕ × Option Fault) (q : Bytes) (b : Buffer) (p : Pools)
    → Models q b p
    → q ≢ []
    → (writer q).0 ≤ length q
    → (b' : Buffer) × (write_to writer b ≡ ok (sent_result (length q) (writer q), b'))
      × Models (drop (writer q).0 q) b' p
unfolding write_to
write_to-Models writer [] b p held ne le = absurd (ne refl)
write_to-Models writer (c ∷ q) b p held ne le =
    let (b', done, m') = after_write-Models (c ∷ q) b p (writer (c ∷ q)) held le in
    let some_left : b.off < b.used = omega (arith, used_view b p held) in
    (b', rw (lt→ltb b.off b.used some_left, held.view, ← length-view b p held) done, m')
