-- ===== src/Go/Utf8/WellFormed.antt =====
-- A well-formed sequence in front of a text: `EncodeRune` gives back what `DecodeRune` took.
use ffjson.Go.Utf8.{
  rune_self, continues, second_of_three, second_of_four, invalid, decode_two, decode_three,
  decode_four, decode_rune, encode_rune,
}
use ffjson.Prelude.{
  ℕ, ◌+◌, ◌-◌, ◌*◌, ◌≤◌, ◌≡◌, ◌≢◌, ◌∙◌, refl, true, false, ◌&&◌, inl, inr, [], ◌∷◌, ◌++◌, arith,
  ltb, between, Bytes, Bool-cases, length, le→ltb, lt→ltb, ◌<◌, false,
}

-- Every byte belongs to a sequence of more than one.
abbrev pub AllHigh : Bytes → Type 0
AllHigh [] = Unit
AllHigh (c ∷ s) = (0x80 ≤ c) × AllHigh s

-- `s` starts with the encoding of the rune that `p` gives, and that has the size that `p` gives.
pub record Front (s : Bytes) (p : ℕ × ℕ) : Type 0 where
  pub front : Bytes
  pub rest : Bytes
  pub splits : s ≡ front ++ rest
  pub size : p.1 ≡ length front
  pub encoded : encode_rune p.0 ≡ front
  pub high : AllHigh front
  pub several : 2 ≤ length front
  pub again : (t : Bytes) → decode_rune (front ++ t) ≡ p

pub decode_ascii : (b : ℕ) (t : Bytes) → b < 0x80 → decode_rune (b ∷ t) ≡ (b, 1)
unfolding decode_rune
decode_ascii b t h = rw (lt→ltb b 0x80 h)

pub encode_ascii : (b : ℕ) → b < 0x80 → encode_rune b ≡ b ∷ []
unfolding encode_rune
encode_ascii b h = ground arith

pub decode_two_lem :
    (a b : ℕ) (t : Bytes)
    → between 0xC2 0xDF a ≡ true
    → continues b ≡ true
    → decode_rune (a ∷ b ∷ t) ≡ ((a - 0xC0) * 0x40 + (b - 0x80), 2)
unfolding decode_rune
decode_two_lem a b t p q = let low : ltb a 0x80 ≡ false = ground arith in rw (low, p, q)

pub decode_three_lem :
    (a b c : ℕ) (t : Bytes)
    → between 0xE0 0xEF a ≡ true
    → second_of_three a b ≡ true
    → continues c ≡ true
    → decode_rune (a ∷ b ∷ c ∷ t) ≡ ((a - 0xE0) * 0x1000 + (b - 0x80) * 0x40 + (c - 0x80), 3)
unfolding decode_rune
decode_three_lem a b c t p q m =
    let low : ltb a 0x80 ≡ false = ground arith in
    let two : between 0xC2 0xDF a ≡ false = ground arith in rw (low, two, p, q, m)

pub decode_four_lem :
    (a b c d : ℕ) (t : Bytes)
    → between 0xF0 0xF4 a ≡ true
    → second_of_four a b ≡ true
    → continues c ≡ true
    → continues d ≡ true
    → decode_rune (a ∷ b ∷ c ∷ d ∷ t)
      ≡ ((a - 0xF0) * 0x40000 + (b - 0x80) * 0x1000 + (c - 0x80) * 0x40 + (d - 0x80), 4)
unfolding decode_rune
decode_four_lem a b c d t p q m n =
    let low : ltb a 0x80 ≡ false = ground arith in
    let two : between 0xC2 0xDF a ≡ false = ground arith in
    let three : between 0xE0 0xEF a ≡ false = ground arith in rw (low, two, three, p, q, m, n)

pub encode_two :
    (a b : ℕ)
    → between 0xC2 0xDF a ≡ true
    → continues b ≡ true
    → encode_rune ((a - 0xC0) * 0x40 + (b - 0x80)) ≡ a ∷ b ∷ []
unfolding encode_rune
encode_two a b h k = ground arith

pub encode_three_lem :
    (a b c : ℕ)
    → between 0xE0 0xEF a ≡ true
    → second_of_three a b ≡ true
    → continues c ≡ true
    → encode_rune ((a - 0xE0) * 0x1000 + (b - 0x80) * 0x40 + (c - 0x80)) ≡ a ∷ b ∷ c ∷ []
unfolding encode_rune
encode_three_lem a b c h k l = ground arith

pub encode_four :
    (a b c d : ℕ)
    → between 0xF0 0xF4 a ≡ true
    → second_of_four a b ≡ true
    → continues c ≡ true
    → continues d ≡ true
    → encode_rune ((a - 0xF0) * 0x40000 + (b - 0x80) * 0x1000 + (c - 0x80) * 0x40 + (d - 0x80))
      ≡ a ∷ b ∷ c ∷ d ∷ []
unfolding encode_rune
encode_four a b c d h k l m = ground arith

decode_two-Front :
    (a : ℕ) (t : Bytes)
    → between 0xC2 0xDF a ≡ true
    → decode_two a t ≢ invalid
    → Front (a ∷ t) (decode_two a t)
unfolding decode_two
decode_two-Front a [] h ne = absurd (ne refl)
decode_two-Front a (b ∷ t) h ne = elim (Bool-cases (continues b)) [
  | inr bad ↦ absurd (ne (rw bad))
  | inl good ↦ rw good (record {
    front = a ∷ b ∷ [];
    rest = t;
    splits = refl;
    size = refl;
    encoded = encode_two a b h good;
    high = (ground arith, (ground arith, tt));
    several = omega arith;
    again = λ (t' : Bytes). decode_two_lem a b t' h good;
  })
]

decode_three-Front :
    (a : ℕ) (t : Bytes)
    → between 0xE0 0xEF a ≡ true
    → decode_three a t ≢ invalid
    → Front (a ∷ t) (decode_three a t)
unfolding decode_three
decode_three-Front a [] h ne = absurd (ne refl)
decode_three-Front a (b ∷ []) h ne = absurd (ne refl)
decode_three-Front a (b ∷ c ∷ t) h ne = elim (Bool-cases (second_of_three a b && continues c)) [
  | inr bad ↦ absurd (ne (rw bad))
  | inl good ↦ rw good (record {
    front = a ∷ b ∷ c ∷ [];
    rest = t;
    splits = refl;
    size = refl;
    encoded = encode_three_lem a b c h (ground arith) (ground arith);
    high = (ground arith, (ground arith, (ground arith, tt)));
    several = omega arith;
    again = λ (t' : Bytes). decode_three_lem a b c t' h (ground arith) (ground arith);
  })
]

decode_four-Front :
    (a : ℕ) (t : Bytes)
    → between 0xF0 0xF4 a ≡ true
    → decode_four a t ≢ invalid
    → Front (a ∷ t) (decode_four a t)
unfolding decode_four
decode_four-Front a [] h ne = absurd (ne refl)
decode_four-Front a (b ∷ []) h ne = absurd (ne refl)
decode_four-Front a (b ∷ c ∷ []) h ne = absurd (ne refl)
decode_four-Front a (b ∷ c ∷ d ∷ t) h ne =
    elim (Bool-cases (second_of_four a b && continues c && continues d)) [
      | inr bad ↦ absurd (ne (rw bad))
      | inl good ↦ rw good (record {
        front = a ∷ b ∷ c ∷ d ∷ [];
        rest = t;
        splits = refl;
        size = refl;
        encoded = encode_four a b c d h (ground arith) (ground arith) (ground arith);
        high = (ground arith, (ground arith, (ground arith, (ground arith, tt))));
        several = omega arith;
        again = λ (t' : Bytes).
            decode_four_lem a b c d t' h (ground arith) (ground arith) (ground arith);
      })
    ]

-- A text that starts with a byte from 0x80 on starts with a well-formed sequence, or decodes to one
-- byte of `RuneError`.
pub decode_rune-Front :
    (a : ℕ) (t : Bytes)
    → 0x80 ≤ a
    → decode_rune (a ∷ t) ≢ invalid
    → Front (a ∷ t) (decode_rune (a ∷ t))
unfolding decode_rune
decode_rune-Front a t high ne = elim (Bool-cases (between 0xC2 0xDF a)) [
  | inl two ↦
      let e : decode_rune (a ∷ t) ≡ decode_two a t = rw (low, two) in
      rw e (decode_two-Front a t two (λ x. ne (e ∙ x)))
  | inr not_two ↦ elim (Bool-cases (between 0xE0 0xEF a)) [
    | inl three ↦
        let e : decode_rune (a ∷ t) ≡ decode_three a t = rw (low, not_two, three) in
        rw e (decode_three-Front a t three (λ x. ne (e ∙ x)))
    | inr not_three ↦ elim (Bool-cases (between 0xF0 0xF4 a)) [
      | inl four ↦
          let e : decode_rune (a ∷ t) ≡ decode_four a t = rw (low, not_two, not_three, four) in
          rw e (decode_four-Front a t four (λ x. ne (e ∙ x)))
      | inr not_four ↦ absurd (ne (rw (low, not_two, not_three, not_four)))
    ]
  ]
]
  where
    low : ltb a 0x80 ≡ false
    low = le→ltb a 0x80 high

-- `DecodeRune` takes no more bytes than there are.
pub decode_rune-size : (a : ℕ) (t : Bytes) → (decode_rune (a ∷ t)).1 ≤ length (a ∷ t)
unfolding decode_rune decode_two decode_three decode_four
decode_rune-size a [] = ground arith
decode_rune-size a (b ∷ []) = ground arith
decode_rune-size a (b ∷ c ∷ []) = ground arith
decode_rune-size a (b ∷ c ∷ d ∷ t) = ground arith

-- Behind the ASCII bytes a rune takes a byte or more, and is no ASCII rune.
pub decode_rune-wide :
    (a : ℕ) (t : Bytes)
    → ltb a rune_self ≡ false
    → (128 ≤ (decode_rune (a ∷ t)).0) × (0 < (decode_rune (a ∷ t)).1)
unfolding decode_rune decode_two decode_three decode_four
decode_rune-wide a [] wide = ground arith
decode_rune-wide a (b ∷ []) wide = ground arith
decode_rune-wide a (b ∷ c ∷ []) wide = ground arith
decode_rune-wide a (b ∷ c ∷ d ∷ t) wide = ground arith
