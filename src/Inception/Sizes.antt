-- ===== src/Inception/Sizes.antt =====
-- inception/encoder.go: the room that a struct is expected to take; a uint32 keeps its wrap-around.
use ffjson.Inception.{
  Kind, bool, int, int8, int16, int32, uint, uint8, uint16, uint32, string, TypeInfo, Typ, basic,
  array, slice, ptr, map, struct, Fields, end, field,
}
use ffjson.Inception.Encoder.Kinds.{Shape, shape}
use ffjson.Inception.Encoder.{is_uint8}
use Prim.Native.Nat.{bit_or}
use ffjson.Prelude.{ℕ, ◌+◌, ◌-◌, ◌*◌, ◌/◌, ◌%◌, ◌^◌, Bool, true, false}

abbrev kind_size : Kind → ℕ
kind_size string = 32
kind_size int = 8
kind_size int8 = 8
kind_size int16 = 8
kind_size int32 = 8
kind_size uint = 8
kind_size uint8 = 8
kind_size uint16 = 8
kind_size uint32 = 8
kind_size bool = 4
kind_size _ = 16

-- `getTypeSize`
pub get_type_size : Typ → ℕ
get_type_size (basic i k) = kind_size k
get_type_size (array i t) = 4 * get_type_size t % 2 ^ 32
get_type_size (slice i t) = 4 * get_type_size t % 2 ^ 32
get_type_size (map i key elem) = 4 * get_type_size elem % 2 ^ 32
get_type_size (ptr i t) = get_type_size t
get_type_size (struct i fs) = 16

add_sizes : ℕ → Fields → ℕ
unfolding get_type_size
add_sizes rv end = rv
add_sizes rv (field sf t fs) = add_sizes ((rv + get_type_size t) % 2 ^ 32) fs

-- `getTotalSize`
pub get_total_size : TypeInfo → Fields → ℕ
unfolding add_sizes
get_total_size i fs = add_sizes (i.size % 2 ^ 32) fs

-- `v |= v >> k`
smear : ℕ → ℕ → ℕ
smear k v = bit_or v (v / 2 ^ k)

-- `p2`
pub p2 : ℕ → ℕ
unfolding smear
p2 v = (smear 16 (smear 8 (smear 4 (smear 2 (smear 1 ((v + 2 ^ 32 - 1) % 2 ^ 32))))) + 1) % 2 ^ 32

-- `getBufGrowSize`
unfoldable pub get_buf_grow_size : TypeInfo → Fields → ℕ
unfolding p2 get_total_size
get_buf_grow_size i fs = p2 (get_total_size i fs)

abbrev is_integer : Shape → Bool
is_integer Shape.signed = true
is_integer Shape.unsigned = true
is_integer _ = false

-- `isIntish`
unfoldable pub is_intish : Typ → Bool
is_intish (basic i k) = is_integer (shape k)
is_intish (array i t) = is_intish t
is_intish (slice i t) = elim (is_uint8 t) [ true ↦ false | false ↦ is_intish t ]
is_intish (ptr i t) = is_intish t
is_intish (map i key elem) = false
is_intish (struct i fs) = false
