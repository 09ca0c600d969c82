-- ===== src/Buffer.antt =====
-- fflib/v1/buffer.go: `Buffer`. A method is a function of the buffer, and of the pools where it can
-- allocate; a slice out of range panics. The runes are written through `runeBytes`, which holds nothing
-- from one call to the next.
pub mod Reads
pub mod Room
pub mod Queue
pub mod Appends
pub mod Takes
pub mod Refine
pub mod Transfers
pub mod ReadFrom
use ffjson.Go.Utf8
use ffjson.Go.Utf8.{rune_self, encode_rune}
use ffjson.Outcome.{Outcome, ok, err, Fault, ◌>>=◌}
use ffjson.Pool.{Slice, Pools, cap, pool, make_slice}
use ffjson.Prelude.{
  ℕ, zero, suc, ◌+◌, ◌-◌, ◌*◌, ◌/◌, ◌%◌, Bool, true, false, ◌&&◌, not, Option, none, some, List, [],
  ◌∷◌, ◌++◌, ltb, leb, ◌==◌, if◌then◌else◌, Bytes, length, copy_at, take, slice,
}

-- What `WriteRune` appends.
unfoldable pub write_rune : ℕ → Bytes
unfolding encode_rune
write_rune r = if ltb r rune_self then (r % 256) ∷ [] else encode_rune r

-- `Buffer`: `buf` with its length `used`, the position `off` of what is unread. `encoder` is external.
pub record Buffer : Type 0 where
  pub buf : Option Slice
  pub used : ℕ
  pub off : ℕ
  pub skip_trailing_byte : Bool

-- The backing array of `buf`; a nil slice has none.
abbrev pub array : Option Slice → Bytes
array none = []
array (some s) = s.bytes

abbrev pub capacity : Buffer → ℕ
capacity b = length (array b.buf)

-- `Bytes`, also `String` of a buffer that is not nil: `b.buf[b.off:]`.
unfoldable pub bytes : Buffer → Bytes
bytes b = slice (array b.buf) b.off b.used

-- `Len`
unfoldable pub len : Buffer → ℕ
len b = b.used - b.off

-- `b.buf[0:n]`, which panics beyond the capacity.
abbrev pub resize : Buffer → ℕ → Outcome Buffer
resize b n = if leb n (capacity b) then ok (record b { used = n }) else err Fault.panic

unfoldable pub truncate : ℕ → Buffer → Outcome Buffer
truncate n b = if n == 0 then ok (record b { off = 0; used = 0 }) else resize b (b.off + n)

-- `Reset`; truncating to nothing does not panic.
abbrev pub reset : Buffer → Buffer
reset b = record b { off = 0; used = 0 }

abbrev pub copy_into : Option Slice → ℕ → Bytes → Option Slice
copy_into none at src = none
copy_into (some s) at src = some (record s { bytes = copy_at s.bytes at src })

abbrev pub recycle : Option Slice → Pools → Pools
recycle none p = p
recycle (some s) p = pool s p

-- Results of a method that can allocate.
abbrev pub Alloc : Type 0 → Type 0
Alloc A = Outcome (A × Buffer × Pools)

module _ (pick : List Slice → Option ℕ) where
  -- `grow` of an empty buffer: nil gets an array, and an empty slice starts again at 0.
  pub refresh : ℕ → Buffer → Pools → Option Slice → Outcome (Buffer × Pools)
  refresh n b p none = make_slice pick (2 * n) p >>= λ (s, p').
      ok (record b { buf = some s; used = 2 * n; off = 0 }, p')
  refresh n b p (some s) = ok (if not (b.off == 0) then reset b else b, p)

  pub prepare : ℕ → Buffer → Pools → Outcome (Buffer × Pools)
  prepare n b p = if len b == 0 then refresh n b p b.buf else ok (b, p)

  -- The second part, where the slice is too small: the bytes slide down, or move to a new array.
  pub make_room : ℕ → ℕ → Buffer × Pools → Outcome (Buffer × Pools)
  make_room n m (b, p) =
      if leb (b.used + n) (capacity b)
      then ok (b, p)
      else if leb (m + n) (capacity b / 2)
      then ok (record b { buf = copy_into b.buf 0 (slice (array b.buf) b.off b.used); off = 0 }, p)
      else make_slice pick (2 * capacity b + n) p >>= λ (s, p'). ok (
        record b {
          buf = copy_into (some s) 0 (slice (array b.buf) b.off b.used);
          used = 2 * capacity b + n;
          off = 0;
        },
        recycle b.buf p',
      )

  pub extend : ℕ → ℕ → Buffer × Pools → Alloc ℕ
  extend n m (b, p) = resize b (b.off + m + n) >>= λ b'. ok (b.off + m, b', p)

  -- `grow`: the position to write at, the length being that position and `n` more.
  unfoldable pub grow : ℕ → Buffer → Pools → Alloc ℕ
  unfolding prepare refresh make_room extend len
  grow n b p = prepare n b p >>= make_room n (len b) >>= extend n (len b)

  -- `Grow` of a number that is not negative.
  unfoldable pub grow_to : ℕ → Buffer → Pools → Outcome (Buffer × Pools)
  grow_to n b p = grow n b p >>= λ (m, b', p'). resize b' m >>= λ b''. ok (b'', p')

  -- `copy(b.buf[m:], p)` behind `grow`, and what the methods return.
  abbrev pub append_at : Bytes → ℕ × Buffer × Pools → Alloc ℕ
  append_at src (m, b, p) = ok (length src, record b { buf = copy_into b.buf m src }, p)

  -- `WriteString`; `WriteByte` of one byte.
  unfoldable pub write_string : Bytes → Buffer → Pools → Alloc ℕ
  write_string src b p = grow (length src) b p >>= append_at src

  -- `p[:len(p)-1]`
  abbrev pub without_last : Bytes → Outcome Bytes
  without_last [] = err Fault.panic
  without_last (c ∷ t) = ok (take (length t) (c ∷ t))

  unfoldable pub write : Bytes → Buffer → Pools → Alloc ℕ
  write src b p =
      (if b.skip_trailing_byte then without_last src else ok src) >>= λ s. write_string s b p

  unfoldable pub write_byte : ℕ → Buffer → Pools → Outcome (Buffer × Pools)
  write_byte c b p =
      grow 1 b p >>= λ (m, b', p'). ok (record b' { buf = copy_into b'.buf m (c ∷ []) }, p')

  -- The buffer's `WriteRune`.
  unfoldable pub put_rune : ℕ → Buffer → Pools → Alloc ℕ
  put_rune r b p =
      if ltb r rune_self
      then write_byte (r % 256) b p >>= (λ (b', p'). ok (1, b', p'))
      else write (encode_rune r) b p
