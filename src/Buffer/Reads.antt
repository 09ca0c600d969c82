-- ===== src/Buffer/Reads.antt =====
-- fflib/v1/buffer.go: the methods of `Buffer` that read, and `Rewind`.
use ffjson.Buffer.{Buffer, array, bytes, len, resize, reset}
use ffjson.Go.Utf8
use ffjson.Go.Utf8.{rune_self}
use ffjson.Outcome.{Outcome, ok, err, Fault, ◌>>=◌, index}
use mathlib.Core.Option
use ffjson.Prelude.{
  ℕ, suc, ◌+◌, ◌-◌, Option, none, some, [], ◌∷◌, ltb, leb, ◌==◌, if◌then◌else◌, Bytes, length, take,
  slice,
}

-- `b.buf = b.buf[:len(b.buf)-n]`
unfoldable pub rewind : ℕ → Buffer → Outcome Buffer
rewind n b = if ltb b.used n then err Fault.panic else resize b (b.used - n)

-- What `Read` does at an empty buffer: `io.EOF`, unless nothing is asked for.
abbrev pub nothing_left : ℕ → Buffer → (Bytes × Option Fault) × Buffer
nothing_left k b = (([], if k == 0 then none else some Fault.eof), reset b)

-- `Read` into a slice of length `k`: the bytes that it copies there, and the error.
unfoldable pub read : ℕ → Buffer → (Bytes × Option Fault) × Buffer
read k b =
    if leb b.used b.off
    then nothing_left k b
    else (let got = take k (bytes b) in ((got, none), record b { off = b.off + length got }))

-- `Next`
unfoldable pub next : ℕ → Buffer → Bytes × Buffer
next n b =
    let k = if ltb (len b) n then len b else n in
    (slice (array b.buf) b.off (b.off + k), record b { off = b.off + k })

unfoldable pub read_byte : Buffer → Outcome (Option ℕ × Buffer)
read_byte b =
    if leb b.used b.off
    then ok (none, reset b)
    else index (array b.buf) b.off >>= (λ c. ok (some c, record b { off = b.off + 1 }))

-- `ReadRune` at the byte `c`: the rune and its size.
unfoldable pub rune_at : ℕ → Buffer → (ℕ × ℕ) × Buffer
rune_at c b =
    if ltb c rune_self
    then ((c, 1), record b { off = b.off + 1 })
    else (let (r, n) = Utf8.decode_rune (bytes b) in ((r, n), record b { off = b.off + n }))

unfoldable pub read_rune : Buffer → Outcome (Option (ℕ × ℕ) × Buffer)
unfolding rune_at
read_rune b =
    if leb b.used b.off
    then ok (none, reset b)
    else index (array b.buf) b.off >>= (λ c. let (r, b') = rune_at c b in ok (some r, b'))

-- `bytes.IndexByte`; `none` is -1.
unfoldable pub index_byte : Bytes → ℕ → Option ℕ
index_byte [] delim = none
index_byte (c ∷ t) delim =
    let i = index_byte t delim in if c == delim then some 0 else Option.map suc i

-- `readSlice`, which `ReadBytes` and `ReadString` copy: the line and its delimiter, or what is left
-- with `io.EOF`.
unfoldable pub read_to : Buffer → Option ℕ → (Bytes × Option Fault) × Buffer
read_to b none = ((bytes b, some Fault.eof), record b { off = b.used })
read_to b (some i) =
    ((slice (array b.buf) b.off (b.off + i + 1), none), record b { off = b.off + i + 1 })

unfoldable pub read_slice : ℕ → Buffer → (Bytes × Option Fault) × Buffer
unfolding read_to
read_slice delim b = read_to b (index_byte (bytes b) delim)
