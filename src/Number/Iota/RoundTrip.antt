-- ===== src/Number/Iota/RoundTrip.antt =====
-- `FormatBits2` (iota.go) followed by `ParseUint` or `ParseInt` (internal/atoi.go).
use mathlib.Core.List.{cons-ne-nil}
use ffjson.Number.Atoi.Int.{signed_value, parse_int_complete}
use ffjson.Number.Atoi.Spec.{AllDigits, weight, value}
use ffjson.Number.Atoi.Uint.{parse_uint_complete}
use ffjson.Number.Atoi.{parse_uint, parse_int, max_val, neg64, NumResult}
use ffjson.Number.Iota.Loops.{digit_char-IsDigit, Keeps, convert-Keeps}
use ffjson.Number.Iota.{digit_char, convert, last_digit, small_numbers, format_bits2}
use ffjson.Prelude.{
  ℕ, ◌+◌, ◌-◌, le→leb, ◌^◌, ◌≤◌, ◌<◌, ◌≡◌, ◌≢◌, ◌⊎◌, refl, Bool, true, false, none, some, [], ◌∷◌,
  ◌++◌, inl, inr, arith, ltb, leb, ◌==◌, ◌&&◌, ◌||◌, not, if◌then◌else◌, Bytes, Bool-cases, get_or,
  length, all_below, all_below_sound, lt→ltb, lt→leb, ltb→lt, leb→le, bytes_eq, bytes_eq-eq,
  ==_refl, ap, ◌∙◌, ◌*◌,
}

-- A text that spells `u` in the base, and fits the scratch array beside a sign.
record Spells (base u : ℕ) (t : Bytes) : Type 0 where
  all_digits : AllDigits base t
  value_is : value base 0 t ≡ u
  ne_nil : t ≢ []
  short : length t ≤ 64

last_digit-Spells :
    (base u : ℕ) (r : ℕ × Bytes)
    → base ≤ 36
    → Keeps base base 63 u [] r
    → Spells base u (last_digit r)
unfolding last_digit
last_digit-Spells base u (v, a) high k =
    let (digit, w) = digit_char-IsDigit base v k.small high in
    record {
      all_digits = (digit, k.all_digits);
      value_is =
          (let e : 0 * base + weight (digit_char v) ≡ v = omega (arith, w) in
            ap (λ n. value base n a) e ∙ k.same);
      ne_nil = cons-ne-nil _ _;
      short = omega (arith, k.written);
    }

convert-Spells :
    (base u : ℕ) → 2 ≤ base → base ≤ 36 → u < 2 ^ 64 → Spells base u (last_digit (convert base u))
convert-Spells base u low high lt =
    last_digit-Spells base u (convert base u) high (convert-Keeps base u low high lt)

-- The inputs on which the fast path for small numbers, which does not look at the base, is right.
abbrev pub SmallFits : ℕ → ℕ → Type 0
SmallFits base u = (10 < u) ⊎ ((u < 10) × (u < base)) ⊎ (base ≡ 10)

small-rows : all_below 10 (λ u. bytes_eq (get_or small_numbers u []) ((u + 48) ∷ [])) ≡ true
unfolding all_below
small-rows = refl

small_digit : (u : ℕ) → u < 10 → get_or small_numbers u [] ≡ (u + 48) ∷ []
small_digit u h =
    bytes_eq-eq _ _ (
      all_below_sound 10 (λ x. bytes_eq (get_or small_numbers x []) ((x + 48) ∷ [])) u small-rows h)

small-Spells :
    (base u : ℕ)
    → 2 ≤ base
    → base ≤ 36
    → u ≤ 10
    → SmallFits base u
    → Spells base u (get_or small_numbers u [])
small-Spells base u low high le fits = elim (Bool-cases (ltb u 10)) [
  | inl small ↦ rw (small_digit u (ltb→lt u 10 small)) (record {
    all_digits = (ground arith, tt);
    value_is = ground arith;
    ne_nil = cons-ne-nil _ _;
    short = omega arith;
  })
  | inr ten ↦
      let e : u ≡ 10 = ground arith in
      let f : base ≡ 10 = ground arith in
      rw (e, f)
        (record {
          all_digits = (omega arith, (omega arith, tt));
          value_is = refl;
          ne_nil = cons-ne-nil _ _;
          short = omega arith;
        })
]

base_legal : (base : ℕ) → 2 ≤ base → base ≤ 36 → (ltb base 2 || ltb 36 base) ≡ false
base_legal base low high = ground arith

format_text : (base u : ℕ) → Bytes
format_text base u = if leb u 10 then get_or small_numbers u [] else last_digit (convert base u)

format_unsigned :
    (dst : Bytes) (base u : ℕ)
    → 2 ≤ base
    → base ≤ 36
    → format_bits2 dst u base false ≡ some (dst ++ format_text base u)
unfolding format_bits2 format_text
format_unsigned dst base u low high = elim (Bool-cases (leb u 10)) [
  | inl small ↦ rw (base_legal base low high, small)
  | inr large ↦ rw (base_legal base low high, large)
]

format_text-Spells :
    (base u : ℕ)
    → 2 ≤ base
    → base ≤ 36
    → u < 2 ^ 64
    → SmallFits base u
    → Spells base u (format_text base u)
unfolding format_text
format_text-Spells base u low high lt fits = elim (Bool-cases (leb u 10)) [
  | inl small ↦ rw small (small-Spells base u low high (leb→le u 10 small) fits)
  | inr large ↦ rw large (convert-Spells base u low high lt)
]

-- `FormatBits2` of a uint64 without a sign, in a base from 2 to 36, where `u` is above 10, or a digit
-- of the base below 10, or the base is 10: it appends a text of at most 64 bytes, and `ParseUint`
-- reads that text back as `u`.
pub parse_uint-format_bits2 :
    (dst : Bytes) (base u : ℕ)
    → 2 ≤ base
    → base ≤ 36
    → u < 2 ^ 64
    → SmallFits base u
    → (t : Bytes) × (format_bits2 dst u base false ≡ some (dst ++ t))
      × (length t ≤ 64)
      × (parse_uint t base 64 ≡ (u, none))
parse_uint-format_bits2 dst base u low high lt fits =
    let sp = format_text-Spells base u low high lt fits in
    let parsed =
      parse_uint_complete (format_text base u) base 64 sp.ne_nil low high (omega arith)
        (omega arith) sp.all_digits in
    (
      format_text base u,
      format_unsigned dst base u low high,
      sp.short,
      parsed ∙ rw (sp.value_is, lt→ltb u (2 ^ 64) lt),
    )

-- The two bits of an int64 pattern that is negative: its magnitude.
negative_lem :
    (dst : Bytes) (base u : ℕ)
    → 2 ≤ base
    → base ≤ 36
    → 10 < u
    → format_bits2 dst u base true ≡ some (dst ++ b'-' ∷ last_digit (convert base (neg64 u)))
unfolding format_bits2
negative_lem dst base u low high large = rw (base_legal base low high, lt→leb u 10 large)

signed_negative : (s : Bytes) (v : ℕ) → v ≤ 2 ^ 63 → signed_value s 64 true v ≡ (neg64 v, none)
signed_negative s v h = rw (le→leb v (2 ^ 63) h)

-- `FormatBits2` of an int64, with its sign, in a base from 2 to 36, where the number is negative, above
-- 10, a digit of the base below 10, or the base is 10: it appends a text of at most 65 bytes, and
-- `ParseInt` reads that text back as the same int64.
pub parse_int-format_bits2 :
    (dst : Bytes) (base u : ℕ)
    → 2 ≤ base
    → base ≤ 36
    → u < 2 ^ 64
    → SmallFits base u
    → (t : Bytes) × (format_bits2 dst u base (leb (2 ^ 63) u) ≡ some (dst ++ t))
      × (length t ≤ 65)
      × (parse_int t base 64 ≡ (u, none))
parse_int-format_bits2 dst base u low high lt fits = elim (Bool-cases (leb (2 ^ 63) u)) [
  | inl negative ↦
      let large : 2 ^ 63 ≤ u = leb→le (2 ^ 63) u negative in
      let m : neg64 u ≡ 2 ^ 64 - u = omega arith in
      let sp = convert-Spells base (neg64 u) low high (omega arith) in
      let parsed =
        (parse_int_complete (last_digit (convert base (neg64 u))) base 64 low high (omega arith)
          (omega arith) sp.ne_nil sp.all_digits).2 in
      (
        b'-' ∷ last_digit (convert base (neg64 u)),
        rw negative (negative_lem dst base u low high (omega arith)),
        omega (arith, sp.short),
        parsed
            ∙ rw (sp.value_is, m)
                (signed_negative _ (2 ^ 64 - u) (omega arith)
                  ∙ ap (λ (v : ℕ). (v, none)) (omega arith)),
      )
  | inr positive ↦
      let sp = format_text-Spells base u low high lt fits in
      let parsed =
        (parse_int_complete (format_text base u) base 64 low high (omega arith) (omega arith)
          sp.ne_nil sp.all_digits).0 in
      (
        format_text base u,
        rw positive (format_unsigned dst base u low high),
        omega (arith, sp.short),
        parsed ∙ rw (sp.value_is, lt→ltb u (2 ^ 63) (ground arith)),
      )
]

-- Whether a parse gave `u` and no error.
reads_as : NumResult → ℕ → Bool
reads_as (n, none) u = n == u
reads_as (n, some e) u = false

small_misread : ℕ → ℕ → Bool
small_misread base u =
    ltb base 2
    || base == 10
    || (ltb u base && ltb u 10)
    || not (reads_as (parse_uint (get_or small_numbers u []) base 64) u)

misread-rows : all_below 37 (λ base. all_below 11 (small_misread base)) ≡ true
unfolding all_below small_misread reads_as parse_uint max_val
misread-rows = refl

misread :
    (base u : ℕ)
    → 2 ≤ base
    → base ≤ 36
    → base ≢ 10
    → u ≤ 10
    → (base ≤ u) ⊎ (u ≡ 10)
    → reads_as (parse_uint (get_or small_numbers u []) base 64) u ≡ false
misread base u low high ne small wrong =
    let row =
      all_below_sound 37 (λ b. all_below 11 (small_misread b)) base misread-rows (omega arith) in
    let entry = all_below_sound 11 (small_misread base) u row (omega arith) in
    unfold small_misread in ground (arith, entry)

-- On every other number, that is one up to 10 which is 10 or not a digit of the base, the base not
-- being 10, `FormatBits2` appends its decimal digits whatever the base: `ParseUint` does not read the
-- number back.
pub parse_uint-format_bits2_small :
    (dst : Bytes) (base u : ℕ)
    → 2 ≤ base
    → base ≤ 36
    → base ≢ 10
    → u ≤ 10
    → (base ≤ u) ⊎ (u ≡ 10)
    → (t : Bytes) × (format_bits2 dst u base false ≡ some (dst ++ t))
      × (parse_uint t base 64 ≢ (u, none))
parse_uint-format_bits2_small dst base u low high ne small wrong = (
  get_or small_numbers u [],
  rw (format_unsigned dst base u low high) (unfold format_text in rw (le→leb u 10 small)),
  λ same. cc (misread base u low high ne small wrong, reads_as_self same),
)
  where
    reads_as_self :
        parse_uint (get_or small_numbers u []) base 64 ≡ (u, none)
        → reads_as (parse_uint (get_or small_numbers u []) base 64) u ≡ true
    reads_as_self same = rw same (unfold reads_as in ==_refl u)
