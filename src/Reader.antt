-- ===== src/Reader.antt =====
-- fflib/v1/reader.go and reader_scan_generic.go: `ffReader`, a position in a byte slice.
-- The shared slice is never written through the reader, so it is a value.
pub mod Position
pub mod Strings
pub mod Reads
use ffjson.Number.Atoi.{NumResult}
use ffjson.Number.ByteNum
use ffjson.Outcome.{eof, invalid_hex_char, invalid_number, panic, Outcome, ok, err, ◌>>=◌, index}
use ffjson.Tables.{has_flag, c_vhc, is_whitespace}
use ffjson.Prelude.{
  ℕ, zero, suc, ◌+◌, ◌-◌, ◌%◌, ◌^◌, true, false, not, ◌&&◌, none, some, [], ◌∷◌, ◌++◌, leb, ◌==◌,
  if◌then◌else◌, Bytes, length, drop, slice, replicate, take,
}

pub record Reader : Type 0 where
  pub s : Bytes
  pub i : ℕ
  pub l : ℕ

unfoldable pub new_ff_reader : Bytes → Reader
new_ff_reader d = record { s = d; i = 0; l = length d }

abbrev pub pos : Reader → ℕ
pos r = r.i

-- `Slice`: `r.s[start:stop]`, with the panic of a slice out of range.
unfoldable pub slice_of : Reader → ℕ → ℕ → Outcome Bytes
slice_of r start stop =
    if leb start stop && leb stop (length r.s) then ok (slice r.s start stop) else err panic

unfoldable pub reset : Reader → Bytes → Reader
reset r d = record r { s = d; i = 0; l = length d }

-- `PosWithLine`: a loop over the bytes before the position.
count_lines : Bytes → ℕ → ℕ → ℕ × ℕ
count_lines [] line char = (line, char)
count_lines (c ∷ t) line char =
    count_lines t (if c == b'\n' then line + 1 else line) (if c == b'\n' then 0 else char + 1)

unfoldable pub pos_with_line : Reader → ℕ × ℕ
unfolding count_lines
pos_with_line r = count_lines (take r.i r.s) 1 0

unfoldable pub read_byte : Reader → Outcome ℕ × Reader
read_byte r = if leb r.l r.i then (err eof, r) else (index r.s r.i, record r { i = r.i + 1 })

-- The loop of `ReadByteNoWS` over the bytes from position `j` on, which the bound `l` cuts off. At the
-- end the position has not moved; a bound beyond the slice panics there.
skip_loop : Reader → Bytes → ℕ → Outcome ℕ × Reader
skip_loop r [] j = (if leb r.l j then err eof else err panic, r)
skip_loop r (c ∷ t) j =
    if not (is_whitespace c) then (ok c, record r { i = j + 1 }) else skip_loop r t (j + 1)

unfoldable pub read_byte_no_ws : Reader → Outcome ℕ × Reader
unfolding skip_loop
read_byte_no_ws r = if leb r.l r.i then (err eof, r) else skip_loop r (drop r.i (take r.l r.s)) r.i

unfoldable pub unread_byte : Reader → Outcome Reader
unread_byte r = if r.i == 0 then err panic else ok (record r { i = r.i - 1 })

-- `readU4`: four hex digits from position `j` on.
collect_u4 : ℕ → Reader → ℕ → Bytes → Outcome Bytes
collect_u4 zero r j u4 = ok u4
collect_u4 (suc n) r j u4 = elim (leb r.l j) [
  | true ↦ err eof
  | false ↦ elim (index r.s j) [
    | err e ↦ err e
    | ok c ↦ elim (has_flag c c_vhc) [
      | true ↦ collect_u4 n r (j + 1) (u4 ++ c ∷ [])
      | false ↦ err (invalid_hex_char c (u4 ++ replicate (suc n) 0))
    ]
  ]
]

number : NumResult → Outcome ℕ
number (n, none) = ok n
number (n, some e) = err (invalid_number e)

-- `rune(rr)` keeps 32 bits.
unfoldable pub read_u4 : Reader → ℕ → Outcome ℕ
unfolding collect_u4 number
read_u4 r j = do
  u4 ← collect_u4 4 r j []
  rr ← number (ByteNum.parse_uint u4 16 64)
  ok (rr % 2 ^ 32)
