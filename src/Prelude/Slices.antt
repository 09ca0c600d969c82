-- ===== src/Prelude/Slices.antt =====
-- Prefixes, suffixes and slices of lists, and a list written over another at a position.
use Prim.Native.Nat.{ℕ, zero, suc, ◌+◌, ◌-◌, ◌≤◌}
use mathlib.Core.Path.{◌≡◌, refl, ap}
use mathlib.Core.List.{List, [], ◌∷◌, ◌++◌}
use native.Mathlib.Omega.{arith}
use ffjson.Prelude.Lists.{length, take, drop, slice, take-append, length-append, length-drop}

module _ {ℓ} {A : Type ℓ} where
  pub length-take : (n : ℕ) (xs : List A) → n ≤ length xs → length (take n xs) ≡ n
  length-take zero xs h = omega arith
  length-take (suc n) [] h = absurd (omega arith)
  length-take (suc n) (x ∷ xs) h = omega (arith, length-take n xs)

  pub take-append_le : (n : ℕ) (a t : List A) → n ≤ length a → take n (a ++ t) ≡ take n a
  take-append_le zero a t h = refl
  take-append_le (suc n) [] t h = absurd (omega arith)
  take-append_le (suc n) (x ∷ a) t h = ap (◌∷◌ x) (take-append_le n a t (omega arith))

  pub take_more-append : (a t : List A) (k : ℕ) → take (length a + k) (a ++ t) ≡ a ++ take k t
  take_more-append [] t k = let e : 0 + k ≡ k = omega arith in rw e refl
  take_more-append (x ∷ a) t k =
      let e : suc (length a) + k ≡ suc (length a + k) = omega arith in
      rw e (ap (◌∷◌ x) (take_more-append a t k))

  pub take-take : (m n : ℕ) (xs : List A) → m ≤ n → take m (take n xs) ≡ take m xs
  take-take zero n xs h = refl
  take-take (suc m) zero xs h = absurd (omega arith)
  take-take (suc m) (suc n) [] h = refl
  take-take (suc m) (suc n) (x ∷ xs) h = ap (◌∷◌ x) (take-take m n xs (omega arith))

  pub drop-append_le : (n : ℕ) (a t : List A) → n ≤ length a → drop n (a ++ t) ≡ drop n a ++ t
  drop-append_le zero a t h = refl
  drop-append_le (suc n) [] t h = absurd (omega arith)
  drop-append_le (suc n) (x ∷ a) t h = drop-append_le n a t (omega arith)

  take-nil : (n : ℕ) → take {A = A} n [] ≡ []
  take-nil zero = refl
  take-nil (suc n) = refl

  drop-nil : (n : ℕ) → drop {A = A} n [] ≡ []
  drop-nil zero = refl
  drop-nil (suc n) = refl

  pub drop-take : (n m : ℕ) (xs : List A) → drop n (take m xs) ≡ take (m - n) (drop n xs)
  drop-take zero m xs = let e : m - 0 ≡ m = omega arith in rw e refl
  drop-take (suc n) zero xs = let e : 0 - suc n ≡ 0 = omega arith in rw e refl
  drop-take (suc n) (suc m) [] = rw (take-nil (suc m - suc n)) refl
  drop-take (suc n) (suc m) (x ∷ xs) =
      let e : suc m - suc n ≡ m - n = omega arith in rw e (drop-take n m xs)

  pub drop-drop : (m n : ℕ) (xs : List A) → drop m (drop n xs) ≡ drop (n + m) xs
  drop-drop m zero xs = let e : 0 + m ≡ m = omega arith in rw e refl
  drop-drop m (suc n) [] = let e : suc n + m ≡ suc (n + m) = omega arith in rw (e, drop-nil m) refl
  drop-drop m (suc n) (x ∷ xs) =
      let e : suc n + m ≡ suc (n + m) = omega arith in rw e (drop-drop m n xs)

  pub take-drop : (n : ℕ) (xs : List A) → take n xs ++ drop n xs ≡ xs
  take-drop zero xs = refl
  take-drop (suc n) [] = refl
  take-drop (suc n) (x ∷ xs) = ap (◌∷◌ x) (take-drop n xs)

  -- `copy(dst[at:], src)`, where the source fits.
  abbrev pub copy_at : List A → ℕ → List A → List A
  copy_at dst at src = take at dst ++ (src ++ drop (at + length src) dst)

  pub length-copy_at :
      (dst : List A) (at : ℕ) (src : List A)
      → at + length src ≤ length dst
      → length (copy_at dst at src) ≡ length dst
  length-copy_at dst at src h = omega (
    arith,
    length-append (take at dst) (src ++ drop (at + length src) dst),
    length-append src (drop (at + length src) dst),
    length-drop (at + length src) dst,
    length-take at dst,
  )

  -- A copy in front is read back.
  pub slice-copy_front :
      (dst src : List A) (m : ℕ) → m ≤ length src → slice (copy_at dst 0 src) 0 m ≡ take m src
  slice-copy_front dst src m h = let e : m - 0 ≡ m = omega arith in rw e (take-append_le m src _ h)

  -- A copy behind a slice makes it longer.
  pub slice-copy_at :
      (dst src : List A) (off at : ℕ)
      → off ≤ at
      → at ≤ length dst
      → slice (copy_at dst at src) off (at + length src) ≡ slice dst off at ++ src
  slice-copy_at dst src off at le fits =
      let size : at + length src - off ≡ length (take (at - off) (drop off dst)) + length src =
        omega (arith, length-take (at - off) (drop off dst), length-drop off dst) in
      rw
        (
          drop-append_le off (take at dst) (src ++ drop (at + length src) dst) front,
          drop-take off at dst,
          size,
          take_more-append (take (at - off) (drop off dst)) (src ++ drop (at + length src) dst)
              (length src),
          take-append src (drop (at + length src) dst),
        )
        refl
    where
      front : off ≤ length (take at dst)
      front = omega (arith, length-take at dst)
