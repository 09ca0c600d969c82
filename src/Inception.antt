-- ===== src/Inception.antt =====
-- inception/reflect.go and inception.go: what the code generator knows of the types of a program, and
-- its state. The package `reflect` tells it; `extractFields` reads the fields of a struct off its type.
pub mod Queue
pub mod Encoder
pub mod Sizes
pub mod Brackets
pub mod Balanced
pub mod Reflect
use ffjson.Prelude.{
  ℕ, Bool, true, false, List, [], ◌∷◌, ◌++◌, ◌||◌, ◌&&◌, bit_and, ◌==◌, not, if◌then◌else◌, Bytes,
  bytes_eq, codes,
}

-- The kinds of `reflect` that contain no type that the generator follows.
pub data Kind : Type 0 where
  bool : Kind
  int : Kind
  int8 : Kind
  int16 : Kind
  int32 : Kind
  int64 : Kind
  uint : Kind
  uint8 : Kind
  uint16 : Kind
  uint32 : Kind
  uint64 : Kind
  uintptr : Kind
  float32 : Kind
  float64 : Kind
  complex64 : Kind
  complex128 : Kind
  chan : Kind
  func : Kind
  interface : Kind
  string : Kind
  unsafe_pointer : Kind

-- What `reflect` says of a type: which one it is, its `String`, its `Name` and `PkgPath`, and whether
-- it or the pointer to it implements `marshalerFasterType`, `marshalerType` and their opposites.
pub record TypeInfo : Type 0 where
  pub id : ℕ
  pub text : Bytes
  pub name : Bytes
  pub pkg_path : Bytes
  pub marshaler_faster : Bool
  pub marshaler : Bool
  pub unmarshaler_faster : Bool
  pub unmarshaler : Bool
  pub size : ℕ

-- `StructField` but for its type, the comparison of its name and what the type implements.
pub record StructField : Type 0 where
  pub name : Bytes
  pub json_name : Bytes
  pub omit_empty : Bool
  pub force_string : Bool
  pub pointer : Bool
  pub tagged : Bool

-- A type with those it is made of; a struct with the fields that `extractFields` finds.
mutual
  pub data Typ : Type 0 where
    basic : TypeInfo → Kind → Typ
    array : TypeInfo → Typ → Typ
    slice : TypeInfo → Typ → Typ
    ptr : TypeInfo → Typ → Typ
    map : TypeInfo → Typ → Typ → Typ
    struct : TypeInfo → Fields → Typ

  pub data Fields : Type 0 where
    end : Fields
    field : StructField → Typ → Fields → Fields

abbrev pub info : Typ → TypeInfo
info (basic i k) = i
info (array i t) = i
info (slice i t) = i
info (ptr i t) = i
info (map i key elem) = i
info (struct i fs) = i

-- shared/options.go: `StructOptions`, and `Feature` as its bits.
pub record StructOptions : Type 0 where
  pub skip_decoder : Bool
  pub skip_encoder : Bool

abbrev pub must_decoder : ℕ
must_decoder = 2

abbrev pub must_encoder : ℕ
must_encoder = 4

-- `HasFeature`
pub has_feature : StructOptions → ℕ → Bool
has_feature s f =
    not (not (bit_and f must_decoder == 0) && s.skip_decoder)
    && not (not (bit_and f must_encoder == 0) && s.skip_encoder)

-- A struct for which code is asked: its type, by its number, and its options.
pub record StructInfo : Type 0 where
  pub id : ℕ
  pub options : StructOptions

-- `wantMarshal`: no encoder for a type that has a marshaler, but not the faster one.
pub want_marshal : TypeInfo → StructOptions → Bool
want_marshal i options =
    if options.skip_encoder then false else not (i.marshaler && not i.marshaler_faster)

-- `wantUnmarshal`
pub want_unmarshal : TypeInfo → StructOptions → Bool
want_unmarshal i options =
    if options.skip_decoder then false else not (i.unmarshaler && not i.unmarshaler_faster)

-- The generator: the writes it has pending, and the imports of its output.
pub record Inception : Type 0 where
  pub queued : List Bytes
  pub imports : List Bytes

abbrev pub member : Bytes → List Bytes → Bool
member s [] = false
member s (t ∷ ts) = bytes_eq s t || member s ts

-- A routine that returns text; one after the other returns one text behind the other.
abbrev pub Gen : Type 0
Gen = Inception → Bytes × Inception

infixr 4 ◌then◌
unfoldable pub ◌then◌ : Gen → Gen → Gen
(f then g) s = ((f s).0 ++ (g (f s).1).0, (g (f s).1).1)

unfoldable pub say : Bytes → Gen
say t s = (t, s)

-- `out += text + "\n"`
unfoldable pub say_line : Bytes → Gen
unfolding say
say_line t = say (t ++ codes "\n")

-- `out += before + name + after`
unfoldable pub around : Bytes → Bytes → Bytes → Gen
unfolding say
around before name after = say (before ++ (name ++ after))

-- `ic.OutputImports[path] = true`
unfoldable pub needs : Bytes → Gen
needs path s =
    ([], record s { imports = if member path s.imports then s.imports else path ∷ s.imports })

abbrev pub fflib : Bytes
fflib = codes "fflib \"github.com/maxproc/ffjson/fflib/v1\""
