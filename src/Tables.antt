-- ===== src/Tables.antt =====
-- The byte tables of fflib/v1: `byteLookupTable` and its masks (lexer.go), `whitespaceLookupTable`
-- (reader.go) and `lt` (jsonstring.go), each with the test that its rows amount to.
-- An index from 256 on, which a Go byte cannot be, gets the row's default.
use ffjson.Prelude.{
  ℕ, ◌<◌, bit_and, ◌≡◌, refl, inl, inr, Bool, true, false, not, ◌||◌, List, ◌∷◌, ◌++◌, arith, ltb,
  ◌==◌, between, get_or, get_or_beyond, replicate, all_below, all_below_sound, beq, beq-eq,
  Bool-cases, ltb→lt,
}

abbrev pub c_vec : ℕ
c_vec = 0x01

abbrev pub c_ijc : ℕ
c_ijc = 0x02

abbrev pub c_vhc : ℕ
c_vhc = 0x04

abbrev pub c_nfp : ℕ
c_nfp = 0x08

abbrev pub c_nuc : ℕ
c_nuc = 0x10

-- `cIJC | cNFP`
abbrev pub slice_string_mask : ℕ
slice_string_mask = 0x0a

-- `cVEC | cIJC | cNFP`, the rows of the quote and the backslash.
abbrev special_row : ℕ
special_row = 0x0b

-- `cVEC | cVHC`, the rows of `b` and `f`.
abbrev hex_escape_row : ℕ
hex_escape_row = 0x05

-- Rows 0 to 31, 32 to 47, 48 to 64, 65 to 96, 97 to 127 and 128 to 255.
unfoldable pub byte_lookup_table : List ℕ
byte_lookup_table =
    replicate 32 c_ijc
    ++ 0
      ∷ 0
      ∷ special_row
      ∷ (replicate 12 0
          ++ c_vec
            ∷ (replicate 10 c_vhc
                ++ (replicate 7 0
                    ++ (replicate 6 c_vhc
                        ++ (replicate 21 0
                            ++ special_row
                              ∷ 0
                              ∷ 0
                              ∷ 0
                              ∷ 0
                              ∷ c_vhc
                              ∷ hex_escape_row
                              ∷ c_vhc
                              ∷ c_vhc
                              ∷ c_vhc
                              ∷ hex_escape_row
                              ∷ (replicate 7 0
                                  ++ c_vec
                                    ∷ 0
                                    ∷ 0
                                    ∷ 0
                                    ∷ c_vec
                                    ∷ 0
                                    ∷ c_vec
                                    ∷ (replicate 11 0 ++ replicate 128 c_nuc)))))))

unfoldable pub whitespace_lookup_table : List Bool
whitespace_lookup_table =
    replicate 9 false ++ (replicate 5 true ++ (replicate 18 false ++ true ∷ replicate 223 false))

unfoldable pub lt_table : List Bool
lt_table =
    replicate 32 false
    ++ true
      ∷ true
      ∷ false
      ∷ true
      ∷ true
      ∷ true
      ∷ false
      ∷ (replicate 21 true
          ++ false ∷ true ∷ false ∷ (replicate 29 true ++ false ∷ replicate 163 true))

-- `byteLookupTable[c] & mask != 0`
unfoldable pub has_flag : ℕ → ℕ → Bool
unfolding byte_lookup_table
has_flag c mask = not (bit_and (get_or byte_lookup_table c 0) mask == 0)

unfoldable pub is_whitespace : ℕ → Bool
unfolding whitespace_lookup_table
is_whitespace c = get_or whitespace_lookup_table c false

-- `lt[b]`
unfoldable pub is_plain : ℕ → Bool
unfolding lt_table
is_plain c = get_or lt_table c false

-- Two tests agree below a bound when evaluation finds no difference.
tests_agree :
    (n : ℕ) (p q : ℕ → Bool) (c : ℕ) → all_below n (λ x. beq (p x) (q x)) ≡ true → c < n → p c ≡ q c
tests_agree n p q c h lt = beq-eq (p c) (q c) (all_below_sound n (λ x. beq (p x) (q x)) c h lt)

flag_beyond : (c mask : ℕ) → bit_and 0 mask ≡ 0 → ltb c 256 ≡ false → has_flag c mask ≡ false
unfolding has_flag
flag_beyond c mask z h = rw (get_or_beyond byte_lookup_table c 0 (ground arith), z)

abbrev pub hex_digit : ℕ → Bool
hex_digit c = between b'0' b'9' c || between b'A' b'F' c || between b'a' b'f' c

abbrev pub escape_letter : ℕ → Bool
escape_letter c =
    c == b'"'
    || c == b'/'
    || c == b'\\'
    || c == b'b'
    || c == b'f'
    || c == b'n'
    || c == b'r'
    || c == b't'

abbrev pub string_special : ℕ → Bool
string_special c = ltb c b' ' || c == b'"' || c == b'\\'

abbrev pub blank : ℕ → Bool
blank c = between b'\t' b'\r' c || c == b' '

-- What `WriteJson` copies as it stands, of the bytes below `utf8.RuneSelf`.
abbrev pub plain : ℕ → Bool
plain c = not (ltb c b' ' || c == b'"' || c == b'\\' || c == b'<' || c == b'>' || c == b'&')

hex_rows : all_below 256 (λ c. beq (has_flag c c_vhc) (hex_digit c)) ≡ true
unfolding all_below has_flag
hex_rows = refl

escape_rows : all_below 256 (λ c. beq (has_flag c c_vec) (escape_letter c)) ≡ true
unfolding all_below has_flag
escape_rows = refl

invalid_rows : all_below 256 (λ c. beq (has_flag c c_ijc) (string_special c)) ≡ true
unfolding all_below has_flag
invalid_rows = refl

special_rows : all_below 256 (λ c. beq (has_flag c slice_string_mask) (string_special c)) ≡ true
unfolding all_below has_flag
special_rows = refl

blank_rows : all_below 256 (λ c. beq (is_whitespace c) (blank c)) ≡ true
unfolding all_below is_whitespace
blank_rows = refl

plain_rows : all_below 128 (λ c. beq (is_plain c) (plain c)) ≡ true
unfolding all_below is_plain
plain_rows = refl

pub has_flag-hex : (c : ℕ) → has_flag c c_vhc ≡ hex_digit c
has_flag-hex c = elim (Bool-cases (ltb c 256)) [
  | inl small ↦ tests_agree 256 (λ x. has_flag x c_vhc) hex_digit c hex_rows (ltb→lt c 256 small)
  | inr large ↦ rw (flag_beyond c c_vhc refl large) (ground arith)
]

pub has_flag-escape : (c : ℕ) → has_flag c c_vec ≡ escape_letter c
has_flag-escape c = elim (Bool-cases (ltb c 256)) [
  | inl small ↦
      tests_agree 256 (λ x. has_flag x c_vec) escape_letter c escape_rows (ltb→lt c 256 small)
  | inr large ↦ rw (flag_beyond c c_vec refl large) (ground arith)
]

pub has_flag-invalid : (c : ℕ) → has_flag c c_ijc ≡ string_special c
has_flag-invalid c = elim (Bool-cases (ltb c 256)) [
  | inl small ↦
      tests_agree 256 (λ x. has_flag x c_ijc) string_special c invalid_rows (ltb→lt c 256 small)
  | inr large ↦ rw (flag_beyond c c_ijc refl large) (ground arith)
]

pub has_flag-special : (c : ℕ) → has_flag c slice_string_mask ≡ string_special c
has_flag-special c = elim (Bool-cases (ltb c 256)) [
  | inl small ↦
      tests_agree 256 (λ x. has_flag x slice_string_mask) string_special c special_rows
        (ltb→lt c 256 small)
  | inr large ↦ rw (flag_beyond c slice_string_mask refl large) (ground arith)
]

whitespace_beyond : (c : ℕ) → ltb c 256 ≡ false → is_whitespace c ≡ false
unfolding is_whitespace
whitespace_beyond c h = get_or_beyond whitespace_lookup_table c false (ground arith)

pub is_whitespace-blank : (c : ℕ) → is_whitespace c ≡ blank c
is_whitespace-blank c = elim (Bool-cases (ltb c 256)) [
  | inl small ↦ tests_agree 256 (λ x. is_whitespace x) blank c blank_rows (ltb→lt c 256 small)
  | inr large ↦ rw (whitespace_beyond c large) (ground arith)
]

pub is_plain-plain : (c : ℕ) → c < 128 → is_plain c ≡ plain c
is_plain-plain c h = tests_agree 128 is_plain plain c plain_rows h
