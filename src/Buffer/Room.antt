-- ===== src/Buffer/Room.antt =====
-- fflib/v1/buffer.go: `grow` keeps what is unread and makes room behind it.
use ffjson.Buffer.{
  Buffer, array, capacity, bytes, len, reset, copy_into, recycle, prepare, refresh, make_room, grow,
}
use ffjson.Outcome.{ok}
use ffjson.Pool.{Slice, Pools, cap}
use ffjson.Pool.Sizes.{IsSized, pool-IsSized, make_slice-IsSized}
use ffjson.Prelude.{
  ℕ, zero, suc, ◌+◌, ◌-◌, ◌*◌, ◌/◌, ◌≤◌, ◌≡◌, refl, ap, sym, ◌∙◌, inl, inr, Option, none, some,
  List, [], ◌∷◌, leb, leb→le, le→leb, ◌==◌, ==_iff, Bool-cases, Bytes, length, take, drop, slice,
  length-drop, length-take, copy_at, length-copy_at, slice-copy_front, take-take, arith,
}

-- The invariant of a buffer: the unread part lies in the slice, and the slice in its array.
pub record IsBuffer (b : Buffer) : Type 0 where
  pub ordered : b.off ≤ b.used
  pub inside : b.used ≤ capacity b

pub length-bytes : (b : Buffer) → IsBuffer b → length (bytes b) ≡ len b
unfolding bytes len
length-bytes b inv =
    length-take (b.used - b.off) (drop b.off (array b.buf))
      (omega (arith, length-drop b.off (array b.buf), inv.ordered, inv.inside))

pub bytes-nil : (b : Buffer) → len b ≡ 0 → bytes b ≡ []
unfolding bytes len
bytes-nil b h = rw h refl

pub array-copy_into :
    (o : Option Slice) (at : ℕ) (src : Bytes)
    → at + length src ≤ length (array o)
    → array (copy_into o at src) ≡ copy_at (array o) at src
array-copy_into (some s) at src h = refl
array-copy_into none zero [] h = refl
array-copy_into none (suc at) src h = absurd (omega arith)
array-copy_into none zero (x ∷ src) h = absurd (omega arith)

-- `b'` holds what `b` has unread, from its own `off` on, and perhaps more.
pub record Holds (b b' : Buffer) (p' : Pools) : Type 0 where
  pub keeps : slice (array b'.buf) b'.off (b'.off + len b) ≡ bytes b
  pub reaches : b'.off + len b ≤ b'.used
  pub inside : b'.used ≤ capacity b'
  pub flag : b'.skip_trailing_byte ≡ b.skip_trailing_byte
  pub sized : IsSized p'

-- The same with room for `n` bytes.
pub record HasRoom (n : ℕ) (b b' : Buffer) (p' : Pools) : Type 0 where
  pub keeps : slice (array b'.buf) b'.off (b'.off + len b) ≡ bytes b
  pub room : b'.off + len b + n ≤ capacity b'
  pub flag : b'.skip_trailing_byte ≡ b.skip_trailing_byte
  pub sized : IsSized p'

module _ (pick : List Slice → Option ℕ) (n : ℕ) (b : Buffer) (inv : IsBuffer b) where
  pub kept : (p : Pools) → IsSized p → Holds b b p
  kept p sized = record {
    keeps = unfold bytes len in rw size refl;
    reaches = unfold len in omega (arith, inv.ordered);
    inside = inv.inside;
    flag = refl;
    sized = sized;
  }
    where
      size : b.off + (b.used - b.off) ≡ b.used
      size = omega (arith, inv.ordered)

  -- An empty buffer is held by any.
  emptied :
      (b' : Buffer) (p' : Pools)
      → len b ≡ 0
      → b'.off ≤ b'.used
      → b'.used ≤ capacity b'
      → b'.skip_trailing_byte ≡ b.skip_trailing_byte
      → IsSized p'
      → Holds b b' p'
  emptied b' p' empty ordered inside flag sized = record {
    keeps = rw (empty, same) (sym (bytes-nil b empty));
    reaches = omega (arith, empty);
    inside = inside;
    flag = flag;
    sized = sized;
  }
    where
      same : b'.off + 0 - b'.off ≡ 0
      same = omega arith

  refresh-Holds :
      (o : Option Slice) (p : Pools)
      → b.buf ≡ o
      → len b ≡ 0
      → IsSized p
      → (b' : Buffer) × (p' : Pools) × (refresh pick n b p o ≡ ok (b', p')) × Holds b b' p'
  unfolding refresh
  refresh-Holds none p nil empty sized =
      let (s, p', made, fits, sized') = make_slice-IsSized pick (2 * n) p sized in
      let b' = record b { buf = some s; used = 2 * n; off = 0 } in
      (b', p', rw made refl, emptied b' p' empty (omega arith) fits refl sized')
  refresh-Holds (some s) p nil empty sized = elim (Bool-cases (b.off == 0)) [
    | inl start ↦ (b, p, rw start refl, kept p sized)
    | inr moved ↦ (
      reset b,
      p,
      rw moved refl,
      emptied (reset b) p empty (omega arith) (omega arith) refl sized,
    )
  ]

  prepare-Holds :
      (p : Pools)
      → IsSized p
      → (b' : Buffer) × (p' : Pools) × (prepare pick n b p ≡ ok (b', p')) × Holds b b' p'
  unfolding prepare
  prepare-Holds p sized = elim (Bool-cases (len b == 0)) [
    | inr some_left ↦ (b, p, rw some_left refl, kept p sized)
    | inl empty ↦ rw empty (refresh-Holds b.buf p refl ((==_iff (len b) 0).0 empty) sized)
  ]

  unread_size :
      (b1 : Buffer) (p1 : Pools)
      → Holds b b1 p1
      → length (slice (array b1.buf) b1.off b1.used) ≡ b1.used - b1.off
  unread_size b1 p1 h =
      length-take (b1.used - b1.off) (drop b1.off (array b1.buf))
        (omega (arith, h.inside, length-drop b1.off (array b1.buf)))

  -- Copied to the front of an array, what is unread is still there.
  copied_front :
      (b1 : Buffer) (p1 : Pools) (dst : Bytes)
      → Holds b b1 p1
      → slice (copy_at dst 0 (slice (array b1.buf) b1.off b1.used)) 0 (0 + len b) ≡ bytes b
  copied_front b1 p1 dst h =
      let e : b1.off + len b - b1.off ≡ 0 + len b = omega arith in
      slice-copy_front dst (slice (array b1.buf) b1.off b1.used) (0 + len b)
        (omega (arith, unread_size b1 p1 h, h.reaches))
      ∙ take-take (0 + len b) (b1.used - b1.off) (drop b1.off (array b1.buf))
          (omega (arith, h.reaches))
      ∙ ap (λ k. take k (drop b1.off (array b1.buf))) (sym e)
      ∙ h.keeps

  pub slide-HasRoom :
      (b1 : Buffer) (p1 : Pools)
      → Holds b b1 p1
      → len b + n ≤ capacity b1
      → HasRoom n b
          (record b1 { buf = copy_into b1.buf 0 (slice (array b1.buf) b1.off b1.used); off = 0 })
          p1
  slide-HasRoom b1 p1 h half =
      let fits : 0 + length (slice (array b1.buf) b1.off b1.used) ≤ capacity b1 =
        omega (arith, unread_size b1 p1 h, h.inside) in
      let same = array-copy_into b1.buf 0 (slice (array b1.buf) b1.off b1.used) fits in
      record {
        keeps =
            ap (λ (a : Bytes). slice a 0 (0 + len b)) same ∙ copied_front b1 p1 (array b1.buf) h;
        room = omega (
          arith,
          ap length same,
          length-copy_at (array b1.buf) 0 (slice (array b1.buf) b1.off b1.used) fits,
        );
        flag = h.flag;
        sized = h.sized;
      }

  pub recycle-IsSized : (o : Option Slice) (p : Pools) → IsSized p → IsSized (recycle o p)
  recycle-IsSized none p inv = inv
  recycle-IsSized (some s) p inv = pool-IsSized s p inv

  pub new-HasRoom :
      (b1 : Buffer) (p1 : Pools) (s : Slice) (p' : Pools)
      → Holds b b1 p1
      → 2 * capacity b1 + n ≤ cap s
      → IsSized p'
      → HasRoom n b
          (record b1 {
            buf = copy_into (some s) 0 (slice (array b1.buf) b1.off b1.used);
            used = 2 * capacity b1 + n;
            off = 0;
          })
          (recycle b1.buf p')
  new-HasRoom b1 p1 s p' h fits sized =
      let small : 0 + length (slice (array b1.buf) b1.off b1.used) ≤ cap s =
        omega (arith, unread_size b1 p1 h, h.inside) in
      record {
        keeps = copied_front b1 p1 s.bytes h;
        room = omega (
          arith,
          h.reaches,
          h.inside,
          length-copy_at s.bytes 0 (slice (array b1.buf) b1.off b1.used) small,
        );
        flag = h.flag;
        sized = recycle-IsSized b1.buf p' sized;
      }

  make_room-HasRoom :
      (b1 : Buffer) (p1 : Pools)
      → Holds b b1 p1
      → (b' : Buffer) × (p' : Pools) × (make_room pick n (len b) (b1, p1) ≡ ok (b', p'))
        × HasRoom n b b' p'
  unfolding make_room
  make_room-HasRoom b1 p1 h = elim (Bool-cases (leb (b1.used + n) (capacity b1))) [
    | inl fits ↦ (
      b1,
      p1,
      rw fits refl,
      record {
        keeps = h.keeps;
        room = omega (arith, h.reaches, leb→le (b1.used + n) (capacity b1) fits);
        flag = h.flag;
        sized = h.sized;
      },
    )
    | inr full ↦ elim (Bool-cases (leb (len b + n) (capacity b1 / 2))) [
      | inl half ↦ (
        _,
        p1,
        rw (full, half) refl,
        slide-HasRoom b1 p1 h (omega (arith, leb→le (len b + n) (capacity b1 / 2) half)),
      )
      | inr no_space ↦
          let (s, p', made, fits, sized) =
            make_slice-IsSized pick (2 * capacity b1 + n) p1 h.sized in
          (_, _, rw (full, no_space, made) refl, new-HasRoom b1 p1 s p' h fits sized)
    ]
  ]

  -- `grow` of a buffer in order, with sized pools, does not panic: it returns the position behind what
  -- is unread, which is kept, and the length is `n` more.
  pub grow-HasRoom :
      (p : Pools)
      → IsSized p
      → (b' : Buffer) × (p' : Pools) × (grow pick n b p
          ≡ ok (b'.off + len b, record b' { used = b'.off + len b + n }, p'))
        × HasRoom n b b' p'
  unfolding grow
  grow-HasRoom p sized =
      let (b1, p1, prepared, held) = prepare-Holds p sized in
      let (b2, p2, roomy, room) = make_room-HasRoom b1 p1 held in
      (b2, p2, rw (prepared, roomy, le→leb (b2.off + len b + n) (capacity b2) room.room) refl, room)
