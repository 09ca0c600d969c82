-- ===== src/Tags.antt =====
-- inception/tags.go, which generator/tags.go repeats: the tag of a struct field. `strings.Index` is the
-- position of the first comma, or none.
use ffjson.Buffer.Reads.{index_byte}
use mathlib.Core.Option
use ffjson.Prelude.{
  ℕ, zero, suc, ◌+◌, ◌≤◌, ◌<◌, ◌≡◌, ◌≢◌, refl, sym, ap, ◌∙◌, Bool, true, false, ◌||◌, inl, inr,
  Option, none, some, List, [], ◌∷◌, ◌==◌, if◌then◌else◌, Bytes, bytes_eq, Bool-cases, length,
  length-drop, drop, take, arith,
}

-- `parseTag`: the name and the options.
unfoldable pub parse_tag : Bytes → Bytes × Bytes
parse_tag tag = elim (index_byte tag b',') [
  | none ↦ (tag, [])
  | some i ↦ (take i tag, drop (i + 1) tag)
]

-- A round of `Contains`: an option and what is behind its comma.
pub next_option : Bytes → Option ℕ → Bytes × Bytes
next_option s none = (s, [])
next_option s (some i) = (take i s, drop (i + 1) s)

-- Each round takes a byte or more, so that one round for each byte is enough.
pub contains_loop : ℕ → Bytes → Bytes → Bool
unfolding next_option
contains_loop fuel name [] = false
contains_loop zero name (c ∷ t) = false
contains_loop (suc fuel) name (c ∷ t) =
    let (s, next) = next_option (c ∷ t) (index_byte (c ∷ t) b',') in
    elim (bytes_eq s name) [ true ↦ true | false ↦ contains_loop fuel name next ]

unfoldable pub contains : Bytes → Bytes → Bool
unfolding contains_loop
contains options name = contains_loop (length options) name options

-- The pieces between the commas.
abbrev pub onto_first : ℕ → List Bytes → List Bytes
onto_first c [] = (c ∷ []) ∷ []
onto_first c (p ∷ ps) = (c ∷ p) ∷ ps

abbrev pub pieces : Bytes → List Bytes
pieces [] = [] ∷ []
pieces (c ∷ t) = if c == b',' then [] ∷ pieces t else onto_first c (pieces t)

abbrev pub has_piece : Bytes → List Bytes → Bool
has_piece name [] = false
has_piece name (p ∷ ps) = bytes_eq p name || has_piece name ps

abbrev Splits : Bytes → Option ℕ → Type 0
Splits s none = pieces s ≡ s ∷ []
Splits s (some i) = (i < length s) × (pieces s ≡ take i s ∷ pieces (drop (i + 1) s))

drop-step : (c i : ℕ) (t : Bytes) → drop (i + 1) (c ∷ t) ≡ drop i t
drop-step c i t = let e : i + 1 ≡ suc i = omega arith in rw e refl

index_byte-Splits : (s : Bytes) → Splits s (index_byte s b',')
unfolding index_byte
index_byte-Splits [] = refl
index_byte-Splits (c ∷ t) = elim (Bool-cases (c == b',')) [
  | inl comma ↦ rw (comma, comma) (omega arith, refl)
  | inr other ↦ at (index_byte t b',') (index_byte-Splits t) other
]
  where
    at :
        (o : Option ℕ)
        → Splits t o
        → (c == b',') ≡ false
        → Splits (c ∷ t) (if c == b',' then some 0 else Option.map suc o)
    at none e other = rw (other, e, other) refl
    at (some i) (lt, e) other =
        let skip : suc i ≡ i + 1 = omega arith in
        let dropped = drop-step c (suc i) t ∙ ap (λ (n : ℕ). drop n t) skip in
        rw (other, e, other)
          (omega (arith, lt), ap (λ (x : Bytes). (c ∷ take i t) ∷ pieces x) (sym dropped))

has_piece-nil : (name : Bytes) → name ≢ [] → has_piece name (pieces []) ≡ false
has_piece-nil [] ne = absurd (ne refl)
has_piece-nil (c ∷ name) ne = refl

contains_loop-pieces :
    (fuel : ℕ) (name s : Bytes)
    → name ≢ []
    → length s ≤ fuel
    → contains_loop fuel name s ≡ has_piece name (pieces s)
unfolding contains_loop next_option
contains_loop-pieces fuel name [] ne enough = sym (has_piece-nil name ne)
contains_loop-pieces zero name (c ∷ t) ne enough = absurd (omega arith)
contains_loop-pieces (suc fuel) name (c ∷ t) ne enough =
    at (index_byte (c ∷ t) b',') (index_byte-Splits (c ∷ t))
      (λ i. contains_loop-pieces fuel name (drop i t) ne (omega (arith, length-drop i t)))
      (contains_loop-pieces fuel name [] ne (omega arith))
  where
    at :
        (o : Option ℕ)
        → Splits (c ∷ t) o
        → ((i : ℕ) → contains_loop fuel name (drop i t) ≡ has_piece name (pieces (drop i t)))
        → contains_loop fuel name [] ≡ has_piece name (pieces [])
        → (elim (bytes_eq (next_option (c ∷ t) o).0 name) [
          | true ↦ true
          | false ↦ contains_loop fuel name (next_option (c ∷ t) o).1
        ])
          ≡ has_piece name (pieces (c ∷ t))
    at none e later last = elim (Bool-cases (bytes_eq (c ∷ t) name)) [
      | inl same ↦ rw (e, same) refl
      | inr other ↦ rw (e, other) refl
    ]
    at (some i) (lt, e) later last =
        let after : drop (i + 1) (c ∷ t) ≡ drop i t = drop-step c i t in
        elim (Bool-cases (bytes_eq (take i (c ∷ t)) name)) [
          | inl same ↦ rw (e, same) refl
          | inr other ↦ rw (e, other, after) (later i)
        ]

-- `Contains` of a name that is not empty: whether one of the options between the commas is the name.
pub contains-pieces :
    (options name : Bytes) → name ≢ [] → contains options name ≡ has_piece name (pieces options)
unfolding contains
contains-pieces options name ne =
    contains_loop-pieces (length options) name options ne (omega arith)
