-- ===== src/Buffer/Appends.antt =====
-- fflib/v1/buffer.go: the methods of a buffer that write, seen on what is unread.
use ffjson.Buffer.{
  Buffer, array, capacity, bytes, len, copy_into, grow_to, write, write_string, write_byte,
  put_rune, write_rune, without_last,
}
use ffjson.Buffer.Room.{IsBuffer, HasRoom, length-bytes, array-copy_into, grow-HasRoom}
use ffjson.Go.Utf8
use ffjson.Outcome.{ok, ◌>>=◌}
use ffjson.Pool.{Slice, Pools}
use ffjson.Pool.Sizes.{IsSized}
use ffjson.Prelude.{
  ℕ, ◌+◌, ◌-◌, ◌%◌, ◌≤◌, ◌≡◌, refl, ap, sym, ◌∙◌, inl, inr, Bool, true, false, Option, List, [],
  ◌∷◌, ◌++◌, ltb, le→leb, if◌then◌else◌, Bool-cases, Bytes, length, take, drop, slice,
  length-copy_at, slice-copy_at, take-take, drop-take, drop-drop, arith,
}

-- The buffer holds the queue `q`, and all is in order.
pub record Models (q : Bytes) (b : Buffer) (p : Pools) : Type 0 where
  pub view : bytes b ≡ q
  pub in_order : IsBuffer b
  pub flag : b.skip_trailing_byte ≡ false
  pub sized : IsSized p

-- A prefix of the unread part, and what is left behind it.
pub bytes_front :
    (b : Buffer) (n : ℕ)
    → IsBuffer b
    → n ≤ len b
    → slice (array b.buf) b.off (b.off + n) ≡ take n (bytes b)
unfolding bytes len
bytes_front b n inv h =
    let e : b.off + n - b.off ≡ n = omega arith in
    rw e (sym (take-take n (b.used - b.off) (drop b.off (array b.buf)) h))

pub bytes_behind :
    (b : Buffer) (n : ℕ) → n ≤ len b → bytes (record b { off = b.off + n }) ≡ drop n (bytes b)
unfolding bytes len
bytes_behind b n h =
    let e : b.used - (b.off + n) ≡ b.used - b.off - n = omega arith in
    rw e (
      sym (
        drop-take n (b.used - b.off) (drop b.off (array b.buf))
        ∙ ap (take (b.used - b.off - n)) (drop-drop n b.off (array b.buf))))

pub within : (b : Buffer) (n : ℕ) → IsBuffer b → n ≤ len b → b.off + n ≤ b.used
unfolding len
within b n inv h = omega (arith, inv.ordered)

pub advanced :
    (b : Buffer) (p : Pools) (n : ℕ) {q : Bytes}
    → Models q b p
    → n ≤ length q
    → Models (drop n q) (record b { off = b.off + n }) p
advanced b p n m h =
    let size = length-bytes b m.in_order in
    let le : n ≤ len b = omega (arith, size, ap length m.view) in
    record {
      view = bytes_behind b n le ∙ ap (drop n) m.view;
      in_order = record { ordered = within b n m.in_order le; inside = m.in_order.inside };
      flag = m.flag;
      sized = m.sized;
    }

pub appended-Models :
    (b b1 : Buffer) (p1 : Pools) (src q : Bytes)
    → HasRoom (length src) b b1 p1
    → bytes b ≡ q
    → b.skip_trailing_byte ≡ false
    → Models
        (q ++ src)
        (record b1 {
          buf = copy_into b1.buf (b1.off + len b) src;
          used = b1.off + len b + length src;
        })
        p1
unfolding bytes
appended-Models b b1 p1 src q room view flag =
    let same = array-copy_into b1.buf (b1.off + len b) src room.room in
    record {
      view =
          ap (λ (a : Bytes). slice a b1.off (b1.off + len b + length src)) same
          ∙ slice-copy_at (array b1.buf) src b1.off (b1.off + len b) (omega arith)
              (omega (arith, room.room))
          ∙ ap (λ k. k ++ src) (room.keeps ∙ view);
      in_order = record {
        ordered = omega arith;
        inside = omega (
          arith,
          room.room,
          ap length same,
          length-copy_at (array b1.buf) (b1.off + len b) src room.room,
        );
      };
      flag = room.flag ∙ flag;
      sized = room.sized;
    }

write_rune_ascii : (r : ℕ) → ltb r Utf8.rune_self ≡ true → write_rune r ≡ (r % 256) ∷ []
unfolding write_rune
write_rune_ascii r h = ap (λ (t : Bool). if t then (r % 256) ∷ [] else Utf8.encode_rune r) h

write_rune_wide : (r : ℕ) → ltb r Utf8.rune_self ≡ false → write_rune r ≡ Utf8.encode_rune r
unfolding write_rune
write_rune_wide r h = ap (λ (t : Bool). if t then (r % 256) ∷ [] else Utf8.encode_rune r) h

module _ (pick : List Slice → Option ℕ) (b : Buffer) (p : Pools) {q : Bytes}
    (m : Models q b p) where
  pub appended :
      (src : Bytes)
      → (b' : Buffer) × (p' : Pools) × (write_string pick src b p ≡ ok (length src, b', p'))
        × Models (q ++ src) b' p'
  unfolding write_string
  appended src =
      let (b1, p1, grown, room) = grow-HasRoom pick (length src) b m.in_order p m.sized in
      (_, _, rw grown refl, appended-Models b b1 p1 src q room m.view m.flag)

  pub written :
      (src : Bytes)
      → (b' : Buffer) × (p' : Pools) × (write pick src b p ≡ ok (length src, b', p'))
        × Models (q ++ src) b' p'
  unfolding write
  written src =
      let (b', p', h, m') = appended src in
      (
        b',
        p',
        ap
              (λ (t : Bool).
                (if t then without_last pick src else ok src) >>= λ s. write_string pick s b p)
              m.flag
            ∙ h,
        m',
      )

  pub write_byte-Models :
      (c : ℕ)
      → (b' : Buffer) × (p' : Pools) × (write_byte pick c b p ≡ ok (b', p'))
        × Models (q ++ c ∷ []) b' p'
  unfolding write_byte
  write_byte-Models c =
      let (b1, p1, grown, room) = grow-HasRoom pick 1 b m.in_order p m.sized in
      (_, _, rw grown refl, appended-Models b b1 p1 (c ∷ []) q room m.view m.flag)

  pub put_rune-Models :
      (r : ℕ)
      → (b' : Buffer) × (p' : Pools) × (put_rune pick r b p ≡ ok (length (write_rune r), b', p'))
        × Models (q ++ write_rune r) b' p'
  unfolding put_rune
  put_rune-Models r = elim (Bool-cases (ltb r Utf8.rune_self)) [
    | inl ascii ↦
        let (b', p', h, m') = write_byte-Models (r % 256) in
        (b', p', rw (ascii, h, write_rune_ascii r ascii) refl, rw (write_rune_ascii r ascii) m')
    | inr wide ↦
        let (b', p', h, m') = written (Utf8.encode_rune r) in
        (b', p', rw (wide, h, write_rune_wide r wide) refl, rw (write_rune_wide r wide) m')
  ]

  pub grow_to-Models :
      (n : ℕ) → (b' : Buffer) × (p' : Pools) × (grow_to pick n b p ≡ ok (b', p')) × Models q b' p'
  unfolding grow_to
  grow_to-Models n =
      let (b1, p1, grown, room) = grow-HasRoom pick n b m.in_order p m.sized in
      (
        record b1 { used = b1.off + len b },
        p1,
        rw (grown, le→leb (b1.off + len b) (capacity b1) (omega (arith, room.room))) refl,
        unfold bytes in
            record {
              view = room.keeps ∙ m.view;
              in_order = record { ordered = omega arith; inside = omega (arith, room.room) };
              flag = room.flag ∙ m.flag;
              sized = room.sized;
            },
      )
