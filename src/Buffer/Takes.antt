-- ===== src/Buffer/Takes.antt =====
-- fflib/v1/buffer.go: the methods of a buffer that read or drop bytes, seen on what is unread.
use ffjson.Buffer.{Buffer, array, capacity, bytes, len, reset, truncate}
use ffjson.Buffer.Appends.{Models, bytes_front, within, advanced}
use ffjson.Buffer.Reads.{rewind, read, next, read_byte, read_rune, rune_at}
use ffjson.Buffer.Room.{length-bytes}
use ffjson.Go.Utf8
use ffjson.Go.Utf8.WellFormed.{decode_ascii, decode_rune-size}
use ffjson.Outcome.{ok, Fault}
use ffjson.Pool.{Pools}
use ffjson.Prelude.{
  ℕ, zero, suc, ◌+◌, ◌-◌, ◌≤◌, ◌≡◌, refl, ap, sym, ◌∙◌, inl, inr, true, false, none, some, [], ◌∷◌,
  ltb, leb, le→leb, lt→leb, le→ltb, ltb→lt, ltb-false, ◌==◌, ==_iff, if◌then◌else◌, Bool-cases,
  Bytes, length, take, drop, slice, get_elem?, drop-get_elem?, arith,
}

module _ (b : Buffer) (p : Pools) {q : Bytes} (m : Models q b p) where
  pub length-view : length q ≡ len b
  length-view = ap length (sym m.view) ∙ length-bytes b m.in_order

  pub used_view : b.used ≡ b.off + length q
  unfolding len
  used_view = omega (arith, length-view, m.in_order.ordered)

  shrunk : (k : ℕ) → k ≤ length q → Models (take k q) (record b { used = b.off + k }) p
  unfolding bytes
  shrunk k h =
      let le : k ≤ len b = omega (arith, length-view) in
      record {
        view = bytes_front b k m.in_order le ∙ ap (take k) m.view;
        in_order = record {
          ordered = omega arith;
          inside = omega (arith, within b k m.in_order le, m.in_order.inside);
        };
        flag = m.flag;
        sized = m.sized;
      }

  pub reset-Models : Models [] (reset b) p
  unfolding bytes
  reset-Models = record {
    view = refl;
    in_order = record { ordered = omega arith; inside = omega arith };
    flag = m.flag;
    sized = m.sized;
  }

  pub truncate-Models :
      (n : ℕ) → n ≤ length q → (b' : Buffer) × (truncate n b ≡ ok b') × Models (take n q) b' p
  unfolding truncate
  truncate-Models n h = elim (Bool-cases (n == 0)) [
    | inl none_left ↦
        let e : n ≡ 0 = (==_iff n 0).0 none_left in (reset b, rw none_left refl, rw e reset-Models)
    | inr some_left ↦
        let fits = shrunk n h in
        (_, rw (some_left, le→leb (b.off + n) (capacity b) fits.in_order.inside) refl, fits)
  ]

  pub rewind-Models :
      (n : ℕ)
      → n ≤ length q
      → (b' : Buffer) × (rewind n b ≡ ok b') × Models (take (length q - n) q) b' p
  unfolding rewind
  rewind-Models n h =
      let fits = shrunk (length q - n) (omega arith) in
      let at : b.used - n ≡ b.off + (length q - n) = omega (arith, used_view) in
      (
        record b { used = b.off + (length q - n) },
        rw
            (
              le→ltb b.used n (omega (arith, used_view)),
              at,
              le→leb (b.off + (length q - n)) (capacity b) fits.in_order.inside,
            )
            refl,
        fits,
      )

-- A taken prefix that starts with `c` starts where the list does.
take-head :
    (k : ℕ) (xs : Bytes) {c : ℕ} {t : Bytes} → take k xs ≡ c ∷ t → (t' : Bytes) × (xs ≡ c ∷ t')
take-head zero xs h = cc
take-head (suc k) [] h = cc
take-head (suc k) (x ∷ xs) h = (xs, ground (arith, h))

empty_test : (b : Buffer) (p : Pools) → Models [] b p → leb b.used b.off ≡ true
empty_test b p m = le→leb b.used b.off (omega (arith, used_view b p m))

some_test :
    (b : Buffer) (p : Pools) {c : ℕ} {t : Bytes}
    → Models (c ∷ t) b p
    → (leb b.used b.off ≡ false) × (get_elem? (array b.buf) b.off ≡ some c)
unfolding bytes
some_test b p m =
    let (t', starts) = take-head (b.used - b.off) (drop b.off (array b.buf)) m.view in
    (
      lt→leb b.used b.off (omega (arith, used_view b p m)),
      drop-get_elem? (array b.buf) b.off starts,
    )

drop-length-take : (k : ℕ) (xs : Bytes) → drop (length (take k xs)) xs ≡ drop k xs
drop-length-take zero xs = refl
drop-length-take (suc k) [] = refl
drop-length-take (suc k) (x ∷ xs) = drop-length-take k xs

length-take_le : (k : ℕ) (xs : Bytes) → length (take k xs) ≤ length xs
length-take_le zero xs = omega arith
length-take_le (suc k) [] = omega arith
length-take_le (suc k) (x ∷ xs) = omega (arith, length-take_le k xs)

take_beyond : (k : ℕ) (xs : Bytes) → length xs ≤ k → take k xs ≡ take (length xs) xs
take_beyond zero [] h = refl
take_beyond (suc k) [] h = refl
take_beyond zero (x ∷ xs) h = absurd (omega arith)
take_beyond (suc k) (x ∷ xs) h = ap (◌∷◌ x) (take_beyond k xs (omega arith))

drop_beyond : (k : ℕ) (xs : Bytes) → length xs ≤ k → drop k xs ≡ drop (length xs) xs
drop_beyond zero [] h = refl
drop_beyond (suc k) [] h = refl
drop_beyond zero (x ∷ xs) h = absurd (omega arith)
drop_beyond (suc k) (x ∷ xs) h = drop_beyond k xs (omega arith)

pub read-Models_nil :
    (k : ℕ) (b : Buffer) (p : Pools)
    → Models [] b p
    → (read k b ≡ (([], if k == 0 then none else some Fault.eof), reset b)) × Models [] (reset b) p
unfolding read
read-Models_nil k b p m = (rw (empty_test b p m) refl, reset-Models b p m)

pub read-Models_cons :
    (k c : ℕ) (t : Bytes) (b : Buffer) (p : Pools)
    → Models (c ∷ t) b p
    → (b' : Buffer) × (read k b ≡ ((take k (c ∷ t), none), b')) × Models (drop k (c ∷ t)) b' p
unfolding read
read-Models_cons k c t b p m =
    let (test, at) = some_test b p m in
    let taken = advanced b p (length (take k (c ∷ t))) m (length-take_le k (c ∷ t)) in
    (
      record b { off = b.off + length (take k (c ∷ t)) },
      rw (test, m.view) refl,
      rw (drop-length-take k (c ∷ t)) at taken,
    )

pub next-Models :
    (n : ℕ) (q : Bytes) (b : Buffer) (p : Pools)
    → Models q b p
    → (b' : Buffer) × (next n b ≡ (take n q, b')) × Models (drop n q) b' p
unfolding next
next-Models n q b p m = elim (Bool-cases (ltb (len b) n)) [
  | inl more ↦
      let le : length q ≤ n = omega (arith, length-view b p m, ltb→lt (len b) n more) in
      let all : slice (array b.buf) b.off (b.off + len b) ≡ take n q =
        bytes_front b (len b) m.in_order (omega arith)
        ∙ ap (take (len b)) m.view
        ∙ ap (λ k. take k q) (sym (length-view b p m))
        ∙ sym (take_beyond n q le) in
      (
        record b { off = b.off + len b },
        rw more (ap (λ (s : Bytes). (s, record b { off = b.off + len b })) all),
        rw (drop_beyond n q le, length-view b p m)
            (advanced b p (len b) m (omega (arith, length-view b p m))),
      )
  | inr fits ↦
      let le : n ≤ len b = ltb-false (len b) n fits in
      (
        record b { off = b.off + n },
        rw (fits, bytes_front b n m.in_order le, m.view) refl,
        advanced b p n m (omega (arith, length-view b p m)),
      )
]

pub read_byte-nil :
    (b : Buffer) (p : Pools)
    → Models [] b p
    → (read_byte b ≡ ok (none, reset b)) × Models [] (reset b) p
unfolding read_byte
read_byte-nil b p m = (rw (empty_test b p m) refl, reset-Models b p m)

pub read_byte-cons :
    (c : ℕ) (t : Bytes) (b : Buffer) (p : Pools)
    → Models (c ∷ t) b p
    → (b' : Buffer) × (read_byte b ≡ ok (some c, b')) × Models t b' p
unfolding read_byte
read_byte-cons c t b p m =
    let (test, at) = some_test b p m in
    (record b { off = b.off + 1 }, rw (test, at) refl, advanced b p 1 m (omega arith))

pub read_rune-nil :
    (b : Buffer) (p : Pools)
    → Models [] b p
    → (read_rune b ≡ ok (none, reset b)) × Models [] (reset b) p
unfolding read_rune
read_rune-nil b p m = (rw (empty_test b p m) refl, reset-Models b p m)

rune_at-cons :
    (c : ℕ) (t : Bytes) (b : Buffer)
    → bytes b ≡ c ∷ t
    → rune_at c b
      ≡ (Utf8.decode_rune (c ∷ t), record b { off = b.off + (Utf8.decode_rune (c ∷ t)).1 })
unfolding rune_at
rune_at-cons c t b view = elim (Bool-cases (ltb c Utf8.rune_self)) [
  | inl ascii ↦ rw (ascii, decode_ascii c t (ltb→lt c Utf8.rune_self ascii)) refl
  | inr wide ↦ rw (wide, view) refl
]

pub read_rune-cons :
    (c : ℕ) (t : Bytes) (b : Buffer) (p : Pools)
    → Models (c ∷ t) b p
    → (b' : Buffer) × (read_rune b ≡ ok (some (Utf8.decode_rune (c ∷ t)), b'))
      × Models (drop (Utf8.decode_rune (c ∷ t)).1 (c ∷ t)) b' p
unfolding read_rune
read_rune-cons c t b p m =
    let (test, at) = some_test b p m in
    (
      record b { off = b.off + (Utf8.decode_rune (c ∷ t)).1 },
      rw (test, at, rune_at-cons c t b m.view) refl,
      advanced b p (Utf8.decode_rune (c ∷ t)).1 m (decode_rune-size c t),
    )
