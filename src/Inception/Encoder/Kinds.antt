-- ===== src/Inception/Encoder/Kinds.antt =====
-- inception/encoder.go: the kinds of types, as the switches of the generator sort them.
use ffjson.Inception.{
  Kind, bool, int, int8, int16, int32, int64, uint, uint8, uint16, uint32, uint64, uintptr, float32,
  float64, complex64, complex128, chan, func, interface, string, unsafe_pointer,
}
use ffjson.Prelude.{Bool, true, false, Bytes, codes}

-- The cases of the switches on the kind.
pub data Shape : Type 0 where
  signed : Shape
  unsigned : Shape
  single : Shape
  double : Shape
  boolean : Shape
  text : Shape
  dynamic : Shape
  other : Shape

abbrev pub shape : Kind → Shape
shape bool = Shape.boolean
shape int = Shape.signed
shape int8 = Shape.signed
shape int16 = Shape.signed
shape int32 = Shape.signed
shape int64 = Shape.signed
shape uint = Shape.unsigned
shape uint8 = Shape.unsigned
shape uint16 = Shape.unsigned
shape uint32 = Shape.unsigned
shape uint64 = Shape.unsigned
shape uintptr = Shape.unsigned
shape float32 = Shape.single
shape float64 = Shape.double
shape complex64 = Shape.other
shape complex128 = Shape.other
shape chan = Shape.other
shape func = Shape.other
shape interface = Shape.dynamic
shape string = Shape.text
shape unsafe_pointer = Shape.other

-- How `%v` shows a kind.
abbrev pub kind_text : Kind → Bytes
kind_text bool = codes "bool"
kind_text int = codes "int"
kind_text int8 = codes "int8"
kind_text int16 = codes "int16"
kind_text int32 = codes "int32"
kind_text int64 = codes "int64"
kind_text uint = codes "uint"
kind_text uint8 = codes "uint8"
kind_text uint16 = codes "uint16"
kind_text uint32 = codes "uint32"
kind_text uint64 = codes "uint64"
kind_text uintptr = codes "uintptr"
kind_text float32 = codes "float32"
kind_text float64 = codes "float64"
kind_text complex64 = codes "complex64"
kind_text complex128 = codes "complex128"
kind_text chan = codes "chan"
kind_text func = codes "func"
kind_text interface = codes "interface"
kind_text string = codes "string"
kind_text unsafe_pointer = codes "unsafe.Pointer"

-- The kinds of an elem that `getMapValue` writes itself, and that `getValue` quotes but for a string.
abbrev pub is_simple : Shape → Bool
is_simple Shape.dynamic = false
is_simple Shape.other = false
is_simple _ = true
