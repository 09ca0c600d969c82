-- ===== src/Pool.antt =====
-- fflib/v1/buffer_pool.go: the pools of backing arrays that buffers take and give back. The choice that
-- `sync.Pool.Get` makes is a parameter: the position of the item it takes, or none for a new one.
pub mod Sizes
use ffjson.Outcome.{Outcome, ok, err, Fault}
use ffjson.Prelude.{
  ℕ, zero, suc, ◌+◌, ◌*◌, ◌/◌, ◌^◌, Bool, true, false, Option, none, some, List, [], ◌∷◌, leb, ltb,
  ◌==◌, if◌then◌else◌, Bytes, length, get_elem?, replicate,
}

-- A backing array: which one it is, and its bytes, as many as its capacity.
pub record Slice : Type 0 where
  pub id : ℕ
  pub bytes : Bytes

abbrev pub cap : Slice → ℕ
cap s = length s.bytes

-- `pools`: what each of them holds; `next` names the next array that is made.
pub record Pools : Type 0 where
  pub items : ℕ → List Slice
  pub next : ℕ

-- `poolNum`; `none` is -1.
unfoldable pub pool_num : ℕ → Option ℕ
pool_num i =
    if leb i 64
    then some 0
    else if leb i 128
    then some 1
    else if leb i 256
    then some 2
    else if leb i 512
    then some 3
    else if leb i 1024
    then some 4
    else if leb i 2048
    then some 5
    else if leb i 4096
    then some 6
    else if leb i 8192
    then some 7
    else if leb i 16384
    then some 8
    else if leb i 32768
    then some 9
    else if leb i 65536
    then some 10
    else if leb i 131072
    then some 11
    else if leb i 262144
    then some 12
    else if leb i 524288
    then some 13
    else none

abbrev pub set_pool : Pools → ℕ → List Slice → Pools
set_pool p pn xs = record p { items = λ k. if k == pn then xs else p.items k }

pub put_in : Pools → Slice → Option ℕ → Pools
put_in p s none = p
put_in p s (some pn) = set_pool p pn (s ∷ p.items pn)

-- `Pool`; a nil slice has capacity 0, and is dropped with the other small ones.
unfoldable pub pool : Slice → Pools → Pools
unfolding put_in
pool s p = if ltb (cap s) 64 then p else put_in p s (pool_num ((cap s + 2) / 2))

-- `make([]byte, …, n)`.
abbrev pub make : ℕ → Pools → Slice × Pools
make n p = (record { id = p.next; bytes = replicate n 0 }, record p { next = p.next + 1 })

-- `1 << i` for the pool of `i - 6`, as `init` sets `New`.
abbrev pub pool_size : ℕ → ℕ
pool_size pn = 64 * 2 ^ pn

abbrev pub remove_at : List Slice → ℕ → List Slice
remove_at [] i = []
remove_at (x ∷ xs) zero = xs
remove_at (x ∷ xs) (suc i) = x ∷ remove_at xs i

-- `s[0:n]`, which panics beyond the capacity.
abbrev pub resliced : ℕ → Slice × Pools → Outcome (Slice × Pools)
resliced n (s, p) = if leb n (cap s) then ok (s, p) else err Fault.panic

module _ (pick : List Slice → Option ℕ) where
  -- `pools[pn].Get()`.
  take_from : ℕ → Pools → Option ℕ → Option Slice → Slice × Pools
  take_from pn p (some i) (some s) = (s, set_pool p pn (remove_at (p.items pn) i))
  take_from pn p _ _ = make (pool_size pn) p

  abbrev picked : List Slice → Option ℕ → Option Slice
  picked xs none = none
  picked xs (some i) = get_elem? xs i

  pub get : ℕ → Pools → Slice × Pools
  unfolding take_from
  get pn p = take_from pn p (pick (p.items pn)) (picked (p.items pn) (pick (p.items pn)))

  slice_for : ℕ → Pools → Option ℕ → Outcome (Slice × Pools)
  unfolding get
  slice_for n p none = ok (make n p)
  slice_for n p (some pn) = resliced n (get pn p)

  -- `makeSlice`: the array; its first `n` bytes are the slice.
  unfoldable pub make_slice : ℕ → Pools → Outcome (Slice × Pools)
  unfolding slice_for get
  make_slice n p = if leb n 64 then resliced n (get 0 p) else slice_for n p (pool_num n)
