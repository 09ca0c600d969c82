-- ===== src/Pool/Sizes.antt =====
-- fflib/v1/buffer_pool.go: every array in a pool is large enough for what the pool serves.
use ffjson.Outcome.{Outcome, ok, err}
use ffjson.Pool.{
  Slice, Pools, cap, pool_num, set_pool, put_in, pool, make, pool_size, remove_at, resliced,
  take_from, picked, get, slice_for, make_slice,
}
use ffjson.Prelude.{
  ℕ, zero, suc, ◌+◌, ◌*◌, ◌/◌, ◌^◌, ◌≤◌, ◌<◌, ◌≡◌, ◌⊎◌, inl, inr, refl, ap, sym, ◌∙◌, Option, none,
  some, List, [], ◌∷◌, leb, ltb, ◌==◌, ==_iff, le→leb, if◌then◌else◌, Bool-cases, Option-cases,
  leb→le, length, get_elem?, replicate, arith,
}

-- Every array of the list has `n` bytes or more.
abbrev pub AllFit : ℕ → List Slice → Type 0
AllFit n [] = Unit
AllFit n (s ∷ xs) = (n ≤ cap s) × AllFit n xs

-- The invariant of the pools.
pub record IsSized (p : Pools) : Type 0 where
  pub sized : (pn : ℕ) → AllFit (pool_size pn) (p.items pn)

length-replicate : (n : ℕ) → length (replicate n (◌+◌ 0 0)) ≡ n
length-replicate zero = refl
length-replicate (suc n) = omega (arith, length-replicate n)

-- What the number of a pool says of a size `n`: the pool's arrays hold it, and those of the pool below
-- do not.
abbrev pub Serves : ℕ → Option ℕ → Type 0
Serves n none = 524288 < n
Serves n (some pn) = (n ≤ pool_size pn) × (64 * 2 ^ pn < 2 * n ⊎ (pn ≡ 0))

pool_num-Serves : (n : ℕ) → Serves n (pool_num n)
unfolding pool_num
pool_num-Serves n = ground arith

set_pool-IsSized :
    (p : Pools) (pn : ℕ) (xs : List Slice)
    → IsSized p
    → AllFit (pool_size pn) xs
    → IsSized (set_pool p pn xs)
set_pool-IsSized p pn xs inv fit = record { sized = at }
  where
    at : (k : ℕ) → AllFit (pool_size k) (if k == pn then xs else p.items k)
    at k = elim (Bool-cases (k == pn)) [
      | inl same ↦ let e : k ≡ pn = (==_iff k pn).0 same in rw (same, e) fit
      | inr other ↦ rw other (inv.sized k)
    ]

put_in-IsSized :
    (p : Pools) (s : Slice) (o : Option ℕ)
    → 64 ≤ cap s
    → Serves ((cap s + 2) / 2) o
    → IsSized p
    → IsSized (put_in p s o)
unfolding put_in
put_in-IsSized p s none big serves inv = inv
put_in-IsSized p s (some pn) big serves inv =
    set_pool-IsSized p pn (s ∷ p.items pn) inv (fits pn serves, inv.sized pn)
  where
    fits : (pn : ℕ) → Serves ((cap s + 2) / 2) (some pn) → pool_size pn ≤ cap s
    fits pn serves = ground arith

-- An array that is given back goes to a pool that it is large enough for.
pub pool-IsSized : (s : Slice) (p : Pools) → IsSized p → IsSized (pool s p)
unfolding pool
pool-IsSized s p inv = elim (Bool-cases (ltb (cap s) 64)) [
  | inl small ↦ rw small inv
  | inr big ↦ rw big (
      put_in-IsSized p s (pool_num ((cap s + 2) / 2)) (ground arith)
        (pool_num-Serves ((cap s + 2) / 2)) inv)
]

remove_at-AllFit : (n : ℕ) (xs : List Slice) (i : ℕ) → AllFit n xs → AllFit n (remove_at xs i)
remove_at-AllFit n [] i fit = fit
remove_at-AllFit n (x ∷ xs) zero fit = fit.1
remove_at-AllFit n (x ∷ xs) (suc i) fit = (fit.0, remove_at-AllFit n xs i fit.1)

get_elem?-AllFit :
    (n : ℕ) (xs : List Slice) (i : ℕ) {s : Slice}
    → AllFit n xs
    → get_elem? xs i ≡ some s
    → n ≤ cap s
get_elem?-AllFit n [] i fit h = cc
get_elem?-AllFit n (x ∷ xs) zero fit h = ground (arith, fit.0)
get_elem?-AllFit n (x ∷ xs) (suc i) fit h = get_elem?-AllFit n xs i fit.1 h

-- An array of `n` bytes or more, out of pools that stay sized.
abbrev pub Taken : ℕ → Slice × Pools → Type 0
Taken n (s, p) = (n ≤ cap s) × IsSized p

make-Taken : (n : ℕ) (p : Pools) → IsSized p → Taken n (make n p)
make-Taken n p inv = (omega (arith, length-replicate n), record { sized = inv.sized })

abbrev pub no_items : Pools
no_items = record { items = λ pn. []; next = 0 }

abbrev second : Pools → Outcome (Slice × Pools) → Pools
second p (ok sp) = sp.1
second p (err e) = p

module _ (pick : List Slice → Option ℕ) where
  take_from-Taken :
      (pn : ℕ) (p : Pools) (i : Option ℕ)
      → IsSized p
      → Taken (pool_size pn) (take_from pick pn p i (picked pick (p.items pn) i))
  unfolding take_from
  take_from-Taken pn p none inv = make-Taken (pool_size pn) p inv
  take_from-Taken pn p (some i) inv = elim (Option-cases (get_elem? (p.items pn) i)) [
    | inl out ↦ rw out (make-Taken (pool_size pn) p inv)
    | inr (s, found) ↦ rw found (
      get_elem?-AllFit (pool_size pn) (p.items pn) i (inv.sized pn) found,
      set_pool-IsSized p pn (remove_at (p.items pn) i) inv
          (remove_at-AllFit (pool_size pn) (p.items pn) i (inv.sized pn)),
    )
  ]

  get-Taken : (pn : ℕ) (p : Pools) → IsSized p → Taken (pool_size pn) (get pick pn p)
  unfolding get
  get-Taken pn p inv = take_from-Taken pn p (pick (p.items pn)) inv

  resliced-Taken :
      (n m : ℕ) (sp : Slice × Pools) → n ≤ m → Taken m sp → (resliced n sp ≡ ok sp) × Taken n sp
  resliced-Taken n m (s, p) le taken =
      (rw (le→leb n (cap s) (omega (arith, taken.0))), (omega (arith, taken.0), taken.1))

  slice_for-IsSized :
      (n : ℕ) (p : Pools) (o : Option ℕ)
      → Serves n o
      → IsSized p
      → (s : Slice) × (p' : Pools) × (slice_for pick n p o ≡ ok (s, p')) × (n ≤ cap s) × IsSized p'
  unfolding slice_for
  slice_for-IsSized n p none serves inv =
      let taken = make-Taken n p inv in ((make n p).0, (make n p).1, refl, taken.0, taken.1)
  slice_for-IsSized n p (some pn) serves inv =
      let (fits, taken) =
        resliced-Taken n (pool_size pn) (get pick pn p) serves.0 (get-Taken pn p inv) in
      ((get pick pn p).0, (get pick pn p).1, fits, taken.0, taken.1)

  -- `makeSlice` does not panic: it returns an array with room for `n` bytes, and the pools stay sized.
  pub make_slice-IsSized :
      (n : ℕ) (p : Pools)
      → IsSized p
      → (s : Slice) × (p' : Pools) × (make_slice pick n p ≡ ok (s, p')) × (n ≤ cap s) × IsSized p'
  unfolding make_slice slice_for get
  make_slice-IsSized n p inv = elim (Bool-cases (leb n 64)) [
    | inl small ↦ rw small (slice_for-IsSized n p (some 0) (leb→le n 64 small, inr refl) inv)
    | inr large ↦ rw large (slice_for-IsSized n p (pool_num n) (pool_num-Serves n) inv)
  ]

  -- What callers and the garbage collector may do to the pools.
  pub data Step (p : Pools) (p' : Pools) : Type 0 where
    give : (s : Slice) → p' ≡ pool s p → Step p p'
    take : (n : ℕ) (s : Slice) → make_slice pick n p ≡ ok (s, p') → Step p p'
    lose : (pn i : ℕ) → p' ≡ set_pool p pn (remove_at (p.items pn) i) → Step p p'

  -- The pools after some steps from the start of the program.
  pub data Reached : Pools → Type 0 where
    start : Reached no_items
    step : {p p' : Pools} → Reached p → Step p p' → Reached p'

  Step-IsSized : {p p' : Pools} → Step p p' → IsSized p → IsSized p'
  Step-IsSized {p} (Step.give s e) inv = rw e (pool-IsSized s p inv)
  Step-IsSized {p} {p'} (Step.take n s h) inv =
      let (s', p'', h', fits, inv') = make_slice-IsSized n p inv in
      let same : p'' ≡ p' = ap (second p) (sym h' ∙ h) in rw (← same) inv'
  Step-IsSized {p} (Step.lose pn i e) inv = rw e (
      set_pool-IsSized p pn (remove_at (p.items pn) i) inv
        (remove_at-AllFit (pool_size pn) (p.items pn) i (inv.sized pn)))

  Reached-IsSized : {p : Pools} → Reached p → IsSized p
  Reached-IsSized Reached.start = record { sized = λ pn. tt }
  Reached-IsSized (Reached.step r s) = Step-IsSized s (Reached-IsSized r)

  -- Whatever has been given back, taken and dropped since the start, `makeSlice` does not panic: it
  -- returns an array with room for `n` bytes.
  pub make_slice-Reached :
      (n : ℕ) (p : Pools)
      → Reached p
      → (s : Slice) × (p' : Pools) × (make_slice pick n p ≡ ok (s, p')) × (n ≤ cap s) × Reached p'
  make_slice-Reached n p r =
      let (s, p', h, fits, inv) = make_slice-IsSized n p (Reached-IsSized r) in
      (s, p', h, fits, Reached.step r (Step.take n s h))
