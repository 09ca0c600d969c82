-- ===== src/Prelude/Lists.antt =====
-- Lists measured and indexed by native numbers, and slices by position.
use Prim.Native.Nat.{ℕ, zero, suc, ◌+◌, ◌-◌, ◌≤◌, ◌<◌}
use mathlib.Core.Path.{◌≡◌, refl, ap}
use mathlib.Core.List.{List, [], ◌∷◌, ◌++◌}
use mathlib.Core.Option.{Option, none, some}
use native.Mathlib.Omega.{arith}

module _ {ℓ} {A : Type ℓ} where
  abbrev pub length : List A → ℕ
  length [] = 0
  length (x ∷ xs) = suc (length xs)

  abbrev pub get_elem? : List A → ℕ → Option A
  get_elem? [] i = none
  get_elem? (x ∷ xs) zero = some x
  get_elem? (x ∷ xs) (suc i) = get_elem? xs i

  abbrev pub get_or : List A → ℕ → A → A
  get_or [] i d = d
  get_or (x ∷ xs) zero d = x
  get_or (x ∷ xs) (suc i) d = get_or xs i d

  abbrev pub take : ℕ → List A → List A
  take zero xs = []
  take (suc n) [] = []
  take (suc n) (x ∷ xs) = x ∷ take n xs

  abbrev pub drop : ℕ → List A → List A
  drop zero xs = xs
  drop (suc n) [] = []
  drop (suc n) (x ∷ xs) = drop n xs

  abbrev pub replicate : ℕ → A → List A
  replicate zero a = []
  replicate (suc n) a = a ∷ replicate n a

  -- Go's `xs[start:stop]`, for `start ≤ stop ≤ len(xs)`.
  abbrev pub slice : List A → ℕ → ℕ → List A
  slice xs start stop = take (stop - start) (drop start xs)

  pub length-append : (xs ys : List A) → length (xs ++ ys) ≡ length xs + length ys
  length-append [] ys = omega arith
  length-append (x ∷ xs) ys = omega (arith, length-append xs ys)

  pub length-drop : (n : ℕ) (xs : List A) → length (drop n xs) ≡ length xs - n
  length-drop zero xs = omega arith
  length-drop (suc n) [] = omega arith
  length-drop (suc n) (x ∷ xs) = omega (arith, length-drop n xs)

  pub get_or_beyond : (xs : List A) (i : ℕ) (d : A) → length xs ≤ i → get_or xs i d ≡ d
  get_or_beyond [] i d h = refl
  get_or_beyond (x ∷ xs) zero d h = absurd (omega arith)
  get_or_beyond (x ∷ xs) (suc i) d h = get_or_beyond xs i d (omega arith)

  pub take-append : (a t : List A) → take (length a) (a ++ t) ≡ a
  take-append [] t = refl
  take-append (x ∷ a) t = ap (◌∷◌ x) (take-append a t)

  -- What `drop j xs ≡ x ∷ t` says of position `j`.
  pub drop-get_elem? :
      (xs : List A) (j : ℕ) {x : A} {t : List A} → drop j xs ≡ x ∷ t → get_elem? xs j ≡ some x
  drop-get_elem? [] zero h = cc
  drop-get_elem? [] (suc j) h = cc
  drop-get_elem? (y ∷ xs) zero h = cc
  drop-get_elem? (y ∷ xs) (suc j) h = drop-get_elem? xs j h

  pub drop-lt : (xs : List A) (j : ℕ) {x : A} {t : List A} → drop j xs ≡ x ∷ t → j < length xs
  drop-lt [] zero h = cc
  drop-lt [] (suc j) h = cc
  drop-lt (y ∷ xs) zero h = omega arith
  drop-lt (y ∷ xs) (suc j) h = omega (arith, drop-lt xs j h)

  drop-suc : (xs : List A) (j : ℕ) {x : A} {t : List A} → drop j xs ≡ x ∷ t → drop (suc j) xs ≡ t
  drop-suc [] zero h = cc
  drop-suc [] (suc j) h = cc
  drop-suc (y ∷ xs) zero h = cc
  drop-suc (y ∷ xs) (suc j) h = drop-suc xs j h

  pub drop_next :
      (xs : List A) (j : ℕ) {x : A} {t : List A} → drop j xs ≡ x ∷ t → drop (j + 1) xs ≡ t
  drop_next xs j h = let e : j + 1 ≡ suc j = omega arith in rw e (drop-suc xs j h)

  pub drop_all : (xs : List A) (j : ℕ) → length xs ≤ j → drop j xs ≡ []
  drop_all [] zero h = refl
  drop_all [] (suc j) h = refl
  drop_all (x ∷ xs) zero h = absurd (omega arith)
  drop_all (x ∷ xs) (suc j) h = drop_all xs j (omega arith)

  -- Every position below the length has an element in front of its rest.
  pub drop_at : (xs : List A) (j : ℕ) → j < length xs → (x : A) × (t : List A) × (drop j xs ≡ x ∷ t)
  drop_at [] j h = absurd (omega arith)
  drop_at (x ∷ xs) zero h = (x, xs, refl)
  drop_at (x ∷ xs) (suc j) h = drop_at xs j (omega arith)

  pub drop_eq-nil : (xs : List A) (j : ℕ) → drop j xs ≡ [] → length xs ≤ j
  drop_eq-nil xs j h = omega (arith, length-drop j xs, ap length h)

  pub drop-append :
      (xs a : List A) (j : ℕ) {t : List A} → drop j xs ≡ a ++ t → drop (j + length a) xs ≡ t
  drop-append xs [] j h = let e : j + 0 ≡ j = omega arith in rw e h
  drop-append xs (x ∷ a) j h =
      let e : j + suc (length a) ≡ (j + 1) + length a = omega arith in
      rw e (drop-append xs a (j + 1) (drop_next xs j h))

  pub slice-append : (xs a t : List A) (j : ℕ) → drop j xs ≡ a ++ t → slice xs j (j + length a) ≡ a
  slice-append xs a t j h =
      let e : j + length a - j ≡ length a = omega arith in rw (e, h) (take-append a t)
