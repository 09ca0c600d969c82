-- ===== src/Number/Iota/Loops.antt =====
-- What the loops of `FormatBits2` keep: the number that the digits written so far spell behind `u`.
use native.Mathlib.Nat.{div-add-mod', mod-lt, pow-suc}
use ffjson.Number.Atoi.Spec.{IsDigit, AllDigits, weight, value}
use ffjson.Number.Iota.{
  digit_char, char01, char10, shifts, hundreds_loop, tens, shift_loop, general_loop, convert,
  rounds,
}
use ffjson.Prelude.{
  ℕ, zero, suc, ◌+◌, ◌-◌, ◌*◌, ◌/◌, ◌%◌, ◌^◌, ◌≤◌, ◌<◌, ◌≡◌, refl, true, inl, inr, [], ◌∷◌, arith,
  leb, ltb, ◌==◌, ==_iff, if◌then◌else◌, Bool-cases, lt→leb, ◌∙◌, ◌&&◌, all_below, all_below_sound,
  length, Bytes,
}

digit-rows : all_below 36 (λ u. digit_char u == (if ltb u 10 then u + 48 else u + 87)) ≡ true
unfolding all_below digit_char
digit-rows = refl

digit_char_lem : (u : ℕ) → u < 36 → digit_char u ≡ (if ltb u 10 then u + 48 else u + 87)
digit_char_lem u h =
    (==_iff _ _).0 (
      all_below_sound 36 (λ x. digit_char x == (if ltb x 10 then x + 48 else x + 87)) u digit-rows
        h)

pub digit_char-IsDigit :
    (base u : ℕ) → u < base → base ≤ 36 → IsDigit base (digit_char u) × (weight (digit_char u) ≡ u)
digit_char-IsDigit base u lt h = rw (digit_char_lem u (omega arith)) (ground arith)

pair-rows : all_below 100 (λ j. char10 j == j / 10 + 48 && char01 j == j % 10 + 48) ≡ true
unfolding all_below char10 char01
pair-rows = refl

pair_lem : (j : ℕ) → j < 100 → (char10 j ≡ j / 10 + 48) × (char01 j ≡ j % 10 + 48)
pair_lem j h = ground (
  arith,
  all_below_sound 100 (λ x. char10 x == x / 10 + 48 && char01 x == x % 10 + 48) j pair-rows h,
)

-- The loop leaves a digit below `top`, has written at most `more` digits, and the digits spell the
-- same number as before.
pub record Keeps (base top more u : ℕ) (a : Bytes) (r : ℕ × Bytes) : Type 0 where
  pub small : r.0 < top
  pub same : value base r.0 r.1 ≡ value base u a
  pub all_digits : AllDigits base r.1
  pub written : length r.1 ≤ length a + more

half_lt : (b u f : ℕ) → 2 ≤ b → u < 2 ^ suc f → u / b < 2 ^ f
half_lt b u f h lt = grind (arith, pow-suc 2 f)

module _ (b : ℕ) (low : 2 ≤ b) (high : b ≤ 36) where
  -- A round that moves the digit `v` from `u` to the text.
  Keeps-next :
      (f u q v : ℕ) (a : Bytes) (r : ℕ × Bytes)
      → u ≡ q * b + v
      → v < b
      → Keeps b b f q (digit_char v ∷ a) r
      → Keeps b b (suc f) u a r
  Keeps-next f u q v a r e lt k =
      let w = (digit_char-IsDigit b v lt high).1 in
      record {
        small = k.small;
        same = rw (e, ← w) k.same;
        all_digits = k.all_digits;
        written = omega (arith, k.written);
      }

  Keeps-done : (f u : ℕ) (a : Bytes) → u < b → AllDigits b a → Keeps b b f u a (u, a)
  Keeps-done f u a lt d = record { small = lt; same = refl; all_digits = d; written = omega arith }

  digit_onto : (v : ℕ) (a : Bytes) → v < b → AllDigits b a → AllDigits b (digit_char v ∷ a)
  digit_onto v a lt d = ((digit_char-IsDigit b v lt high).0, d)

  general_loop-Keeps :
      (f u : ℕ) (a : Bytes) → u < 2 ^ suc f → AllDigits b a → Keeps b b f u a (general_loop f b u a)
  unfolding general_loop
  general_loop-Keeps zero u a lt d = Keeps-done 0 u a (omega arith) d
  general_loop-Keeps (suc f) u a lt d = elim (Bool-cases (leb b u)) [
    | inr done ↦ rw (done, general_loop) (Keeps-done (suc f) u a (ground arith) d)
    | inl more ↦
        rw (more, general_loop)
          (Keeps-next f u (u / b) (u % b) a _ (omega (arith, div-add-mod' u b))
            (mod-lt u (omega arith))
            (general_loop-Keeps f (u / b) (digit_char (u % b) ∷ a) (half_lt b u (suc f) low lt)
              (digit_onto (u % b) a (mod-lt u (omega arith)) d)))
  ]

  shift_loop-general :
      (s : ℕ) → 2 ^ s ≡ b → (f u : ℕ) (a : Bytes) → shift_loop f b s u a ≡ general_loop f b u a
  unfolding shift_loop general_loop
  shift_loop-general s e zero u a = refl
  shift_loop-general s e (suc f) u a = elim (Bool-cases (leb b u)) [
    | inr done ↦ rw (done, shift_loop, general_loop)
    | inl more ↦
        rw (more, shift_loop, general_loop, e)
          (shift_loop-general s e f (u / b) (digit_char (u % b) ∷ a))
  ]

pair_onto :
    (u q : ℕ) (a : Bytes)
    → q ≡ u / 100
    → (value 10 q (char10 (u - q * 100) ∷ char01 (u - q * 100) ∷ a) ≡ value 10 u a)
      × IsDigit 10 (char10 (u - q * 100))
      × IsDigit 10 (char01 (u - q * 100))
pair_onto u q a e =
    let (p, r) = pair_lem (u - q * 100) (omega arith) in
    let spelled : (q * 10 + weight (char10 (u - q * 100))) * 10 + weight (char01 (u - q * 100))
        ≡ u =
      rw (p, r) (ground arith) in
    (rw spelled, rw p (ground arith), rw r (ground arith))

hundreds_loop_small : (f u : ℕ) (a : Bytes) → u < 100 → hundreds_loop f u a ≡ (u, a)
unfolding hundreds_loop
hundreds_loop_small zero u a h = refl
hundreds_loop_small (suc f) u a h = rw (lt→leb 100 u h, hundreds_loop)

Keeps-small :
    (f m u : ℕ) (a : Bytes) → u < 100 → AllDigits 10 a → Keeps 10 100 m u a (hundreds_loop f u a)
Keeps-small f m u a h d =
    rw (hundreds_loop_small f u a h)
      (record { small = h; same = refl; all_digits = d; written = omega arith })

hundredth_lt : (m u : ℕ) → u < 8 ^ suc (suc (suc m)) → u / 100 < 8 ^ suc m
hundredth_lt m u h = omega (arith, pow-suc 8 (suc m), pow-suc 8 (suc (suc m)))

-- A round writes two digits and divides `u` by more than 64.
hundreds_loop-Keeps :
    (f m u : ℕ) (a : Bytes)
    → m ≤ f
    → u < 8 ^ suc m
    → AllDigits 10 a
    → Keeps 10 100 m u a (hundreds_loop f u a)
unfolding hundreds_loop
hundreds_loop-Keeps f zero u a h lt d = Keeps-small f 0 u a (omega arith) d
hundreds_loop-Keeps f (suc zero) u a h lt d = Keeps-small f 1 u a (omega arith) d
hundreds_loop-Keeps zero (suc (suc m)) u a h lt d = absurd (omega arith)
hundreds_loop-Keeps (suc f) (suc (suc m)) u a h lt d = elim (Bool-cases (leb 100 u)) [
  | inr done ↦ Keeps-small (suc f) (suc (suc m)) u a (ground arith) d
  | inl more ↦
      let (spelled, d10, d01) = pair_onto u (u / 100) a refl in
      let k =
        hundreds_loop-Keeps f m (u / 100)
          (char10 (u - u / 100 * 100) ∷ char01 (u - u / 100 * 100) ∷ a) (omega arith)
          (hundredth_lt m u lt) (d10, (d01, d)) in
      rw (more, hundreds_loop)
        (record {
          small = k.small;
          same = k.same ∙ spelled;
          all_digits = k.all_digits;
          written = omega (arith, k.written);
        })
]

tens-Keeps :
    (m u : ℕ) (a : Bytes) (r : ℕ × Bytes) → Keeps 10 100 m u a r → Keeps 10 10 (suc m) u a (tens r)
unfolding tens
tens-Keeps m u a (v, t) k = elim (Bool-cases (leb 10 v)) [
  | inr done ↦ rw done (record {
    small = ground arith;
    same = k.same;
    all_digits = k.all_digits;
    written = omega (arith, k.written);
  })
  | inl more ↦
      let (digit, w) = digit_char-IsDigit 10 (v - v / 10 * 10) (omega arith) (omega arith) in
      let spelled : v / 10 * 10 + weight (digit_char (v - v / 10 * 10)) ≡ v = omega (arith, w) in
      rw more (record {
        small = omega (arith, k.small);
        same = rw spelled k.same;
        all_digits = (digit, k.all_digits);
        written = omega (arith, k.written);
      })
]

Keeps-le : (m u : ℕ) {r : ℕ × Bytes} → m ≤ 63 → Keeps 10 10 m u [] r → Keeps 10 10 63 u [] r
Keeps-le m u h k = record {
  small = k.small;
  same = k.same;
  all_digits = k.all_digits;
  written = omega (arith, k.written);
}

shifts-pow : (base : ℕ) → ltb 0 (shifts base) ≡ true → 2 ^ shifts base ≡ base
unfolding shifts
shifts-pow base h = ground arith

pub convert-Keeps :
    (base u : ℕ) → 2 ≤ base → base ≤ 36 → u < 2 ^ 64 → Keeps base base 63 u [] (convert base u)
unfolding convert
convert-Keeps base u low high lt = elim (Bool-cases (base == 10)) [
  | inl ten ↦
      let e : base ≡ 10 = (==_iff base 10).0 ten in
      let k = hundreds_loop-Keeps rounds 21 u [] (omega arith) (omega arith) tt in
      rw ten (rw e (Keeps-le 22 u (omega arith) (tens-Keeps 21 u [] _ k)))
  | inr other ↦ elim (Bool-cases (ltb 0 (shifts base))) [
    | inl power ↦
        rw (other, power, shift_loop-general base low high (shifts base) (shifts-pow base power))
          (general_loop-Keeps base low high rounds u [] lt tt)
    | inr plain ↦ rw (other, plain) (general_loop-Keeps base low high rounds u [] lt tt)
  ]
]
