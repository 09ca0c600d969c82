-- ===== src/Buffer/ReadFrom.antt =====
-- fflib/v1/buffer.go: `ReadFrom`. The reader is external: it is the answers to the calls of `Read`, each
-- the bytes that it puts into the room it is given, and an error.
use ffjson.Buffer.{Buffer, capacity, bytes, len, reset, copy_into, recycle}
use ffjson.Buffer.Appends.{Models, appended-Models}
use ffjson.Buffer.Room.{IsBuffer, HasRoom, kept, slide-HasRoom, new-HasRoom, recycle-IsSized}
use ffjson.Buffer.Takes.{reset-Models, used_view}
use ffjson.Outcome.{Outcome, ok, err, Fault, ◌>>=◌}
use ffjson.Pool.{Slice, Pools, make_slice}
use ffjson.Pool.Sizes.{IsSized, make_slice-IsSized}
use ffjson.Prelude.{
  ℕ, ◌+◌, ◌-◌, ◌*◌, ◌≤◌, ◌≡◌, refl, ap, ◌∙◌, inl, inr, Option, none, some, List, [], ◌∷◌, ◌++◌, ltb,
  leb, ltb-false, le→leb, leb→le, if◌then◌else◌, Bool-cases, Bytes, length, length-append,
  append_assoc, arith,
}

-- `minRead`
abbrev pub min_read : ℕ
min_read = 512

-- The error that `ReadFrom` returns for one of the reader's.
abbrev pub reported : Fault → Option Fault
reported Fault.eof = none
reported e = some e

-- An empty buffer is reset.
unfoldable pub recover : Buffer → Buffer
recover b = if leb b.used b.off then reset b else b

-- `b.buf[0 : len(b.buf)+m]`, where the reader has put its bytes; it panics beyond the capacity.
unfoldable pub fill : Bytes → Buffer → Outcome Buffer
fill chunk b =
    if leb (b.used + length chunk) (capacity b)
    then ok (record b { buf = copy_into b.buf b.used chunk; used = b.used + length chunk })
    else err Fault.panic

module _ (pick : List Slice → Option ℕ) where
  -- `newBuf`, and the pools behind it.
  pub read_target : Buffer → Pools → Outcome (Option Slice × Pools)
  read_target b p =
      if ltb (b.off + (capacity b - b.used)) min_read
      then make_slice pick (2 * capacity b + min_read) p >>= (λ (s, p'). ok (some s, p'))
      else ok (b.buf, p)

  -- The unread part is copied to `newBuf`, which takes the place of the slice that goes to the pools.
  pub retarget : Buffer → Option Slice × Pools → Outcome (Buffer × Pools)
  retarget b (o, p) =
      ok (record b { buf = copy_into o 0 (bytes b); used = len b; off = 0 }, recycle b.buf p)

  -- The first part of a round.
  unfoldable pub read_room : Buffer → Pools → Outcome (Buffer × Pools)
  unfolding read_target retarget
  read_room b p =
      if ltb (capacity b - b.used) min_read then read_target b p >>= retarget b else ok (b, p)

  -- The rounds, `n` bytes having been read; the answers must reach as far as an error.
  unfoldable pub read_rounds :
      List (Bytes × Option Fault)
      → ℕ
      → Buffer × Pools
      → Outcome ((ℕ × Option Fault) × Buffer × Pools)
  unfolding read_room fill
  read_rounds [] n (b, p) = err Fault.no_fuel
  read_rounds ((chunk, none) ∷ answers) n (b, p) = read_room b p >>= λ (b1, p1).
      fill chunk b1 >>= λ b2. read_rounds answers (n + length chunk) (b2, p1)
  read_rounds ((chunk, some e) ∷ answers) n (b, p) = read_room b p >>= λ (b1, p1).
      fill chunk b1 >>= λ b2. ok ((n + length chunk, reported e), b2, p1)

  unfoldable pub read_from :
      List (Bytes × Option Fault) → Buffer → Pools → Outcome ((ℕ × Option Fault) × Buffer × Pools)
  unfolding recover read_rounds
  read_from answers b p = read_rounds answers 0 (recover b, p)

-- `Delivers answers w e`: the answers, of `minRead` bytes at most, bring the bytes `w`, and end with the
-- error that is reported as `e`.
pub data Delivers : List (Bytes × Option Fault) → Bytes → Option Fault → Type 0 where
  last_chunk :
      {chunk : Bytes} {e : Fault} {more : List (Bytes × Option Fault)}
      → length chunk ≤ min_read
      → Delivers ((chunk, some e) ∷ more) chunk (reported e)
  next_chunk :
      {chunk w : Bytes} {e : Option Fault} {more : List (Bytes × Option Fault)}
      → length chunk ≤ min_read
      → Delivers more w e
      → Delivers ((chunk, none) ∷ more) (chunk ++ w) e

-- A buffer with room for `minRead` bytes behind its slice.
abbrev IsRoomy : Buffer → Buffer × Pools → Type 0
IsRoomy b (b', p') = HasRoom min_read b b' p' × (b'.used ≡ b'.off + len b)

module _ (pick : List Slice → Option ℕ) (b : Buffer) (inv : IsBuffer b) (p : Pools)
    (sized : IsSized p) where
  -- The bytes already read make enough room, or there is a new array.
  target-IsRoomy :
      (r : Buffer × Pools) × (read_target pick b p >>= retarget pick b ≡ ok r) × IsRoomy b r
  unfolding read_target retarget
  target-IsRoomy = elim (Bool-cases (ltb (b.off + (capacity b - b.used)) min_read)) [
    | inl little ↦
        let (s, p', made, fits, sized') =
          make_slice-IsSized pick (2 * capacity b + min_read) p sized in
        let h =
          new-HasRoom pick min_read b inv b p s p' (kept pick min_read b inv p sized) fits sized' in
        (
          (
            record b { buf = copy_into (some s) 0 (bytes b); used = len b; off = 0 },
            recycle b.buf p',
          ),
          rw (little, made) refl,
          (
            unfold bytes in
                record { keeps = h.keeps; room = h.room; flag = h.flag; sized = h.sized },
            omega arith,
          ),
        )
    | inr enough ↦
        let fits : len b + min_read ≤ capacity b =
          unfold len in
          omega (
            arith,
            ltb-false (b.off + (capacity b - b.used)) min_read enough,
            inv.ordered,
            inv.inside,
          ) in
        let h = slide-HasRoom pick min_read b inv b p (kept pick min_read b inv p sized) fits in
        (
          (record b { buf = copy_into b.buf 0 (bytes b); used = len b; off = 0 }, recycle b.buf p),
          rw enough refl,
          (
            unfold bytes in
                record {
                  keeps = h.keeps;
                  room = h.room;
                  flag = h.flag;
                  sized = recycle-IsSized pick min_read b inv b.buf p sized;
                },
            omega arith,
          ),
        )
  ]

  read_room-IsRoomy : (r : Buffer × Pools) × (read_room pick b p ≡ ok r) × IsRoomy b r
  unfolding read_room
  read_room-IsRoomy = elim (Bool-cases (ltb (capacity b - b.used) min_read)) [
    | inl little ↦ let (r, done, roomy) = target-IsRoomy in (r, rw little done, roomy)
    | inr enough ↦
        let h = kept pick min_read b inv p sized in
        let end : b.used ≡ b.off + len b = unfold len in omega (arith, inv.ordered) in
        (
          (b, p),
          rw enough refl,
          (
            record {
              keeps = h.keeps;
              room =
                  omega (arith, end, inv.inside, ltb-false (capacity b - b.used) min_read enough);
              flag = refl;
              sized = sized;
            },
            end,
          ),
        )
  ]

-- A round, with its answer.
round-Models :
    (pick : List Slice → Option ℕ) (chunk q : Bytes) (b : Buffer) (p : Pools)
    → Models q b p
    → length chunk ≤ min_read
    → (b1 : Buffer) × (p1 : Pools) × (b2 : Buffer) × (read_room pick b p ≡ ok (b1, p1))
      × (fill chunk b1 ≡ ok b2)
      × Models (q ++ chunk) b2 p1
unfolding fill
round-Models pick chunk q b p held small =
    let ((b1, p1), roomy, (h, end)) = read_room-IsRoomy pick b held.in_order p held.sized in
    let room : b1.off + len b + length chunk ≤ capacity b1 = omega (arith, h.room, small) in
    (
      b1,
      p1,
      _,
      roomy,
      rw (end, le→leb (b1.off + len b + length chunk) (capacity b1) room) refl,
      appended-Models b b1 p1 chunk q
          (record { keeps = h.keeps; room = room; flag = h.flag; sized = h.sized }) held.view
          held.flag,
    )

read_rounds-Models :
    (pick : List Slice → Option ℕ) {answers : List (Bytes × Option Fault)} {w : Bytes}
    {e : Option Fault} (n : ℕ) (q : Bytes) (b : Buffer) (p : Pools)
    → Delivers answers w e
    → Models q b p
    → (b' : Buffer) × (p' : Pools) × (read_rounds pick answers n (b, p)
        ≡ ok ((n + length w, e), b', p'))
      × Models (q ++ w) b' p'
unfolding read_rounds
read_rounds-Models pick {answers = []} n q b p delivers held = elim delivers [ ]
read_rounds-Models pick {answers = (chunk, some e) ∷ more} n q b p (Delivers.last_chunk small)
      held =
    let (b1, p1, b2, roomy, filled, held') = round-Models pick chunk q b p held small in
    (b2, p1, rw (roomy, filled) refl, held')
read_rounds-Models pick {answers = (chunk, none) ∷ more} n q b p
      (Delivers.next_chunk {w = w} {e = e} small others) held =
    let (b1, p1, b2, roomy, filled, held1) = round-Models pick chunk q b p held small in
    let (b', p', done, held') =
      read_rounds-Models pick (n + length chunk) (q ++ chunk) b2 p1 others held1 in
    let count : n + length chunk + length w ≡ n + length (chunk ++ w) =
      omega (arith, length-append chunk w) in
    (
      b',
      p',
      rw (roomy, filled) (done ∙ ap (λ (m : ℕ). ok ((m, e), b', p')) count),
      rw (← append_assoc q chunk w) held',
    )

recover-Models : (q : Bytes) (b : Buffer) (p : Pools) → Models q b p → Models q (recover b) p
unfolding recover
recover-Models q b p held = elim (Bool-cases (leb b.used b.off)) [
  | inl empty ↦ rw empty (at q held (omega (arith, used_view b p held, leb→le b.used b.off empty)))
  | inr some_left ↦ rw some_left held
]
  where
    at : (q : Bytes) → Models q b p → length q ≡ 0 → Models q (reset b) p
    at [] h e = reset-Models b p h
    at (c ∷ t) h e = absurd (omega (arith, e))

-- ReadFrom into any buffer in order, with sized pools, from a reader that gives 512 bytes at most at a
-- time until it gives an error: it does not panic, returns the count of the bytes that the reader gave,
-- with no error for io.EOF and the reader's for any other, and the buffer holds what was unread and
-- those bytes behind it.
pub read_from-Models :
    (pick : List Slice → Option ℕ) (answers : List (Bytes × Option Fault)) (w : Bytes)
    (e : Option Fault) (q : Bytes) (b : Buffer) (p : Pools)
    → Delivers answers w e
    → Models q b p
    → (b' : Buffer) × (p' : Pools) × (read_from pick answers b p ≡ ok ((length w, e), b', p'))
      × Models (q ++ w) b' p'
unfolding read_from
read_from-Models pick answers w e q b p delivers held =
    let (b', p', done, held') =
      read_rounds-Models pick 0 q (recover b) p delivers (recover-Models q b p held) in
    let count : 0 + length w ≡ length w = omega arith in
    (b', p', done ∙ ap (λ (m : ℕ). ok ((m, e), b', p')) count, held')
