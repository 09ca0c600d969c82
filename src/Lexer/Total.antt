-- ===== src/Lexer/Total.antt =====
-- fflib/v1/lexer.go: the positions that the methods of `FFLexer` reach, on any input.
use ffjson.Lexer.{
  FfLexer, Tok, LexErr, Flow, val, ret, crash, M, continue, ◌>>=◌, ◌>>◌, pure, fail_with, read_byte,
  on_read, unread_byte, on_unread, write_from, on_slice, want_loop, want_bytes,
}
use ffjson.Reader
use ffjson.Reader.{Reader}
use ffjson.Reader.Reads.{read_byte-Reads}
use ffjson.Reader.Strings.Bounds.{Stays}
use ffjson.Prelude.{
  ℕ, suc, ◌+◌, ◌≤◌, ◌≡◌, refl, sym, ap, ◌∙◌, Bool, true, false, ◌⊎◌, inl, inr, [], ◌∷◌, arith,
  Bytes, length, le→leb, ne→==, ◌==◌, if◌then◌else◌,
}

-- The tokens on which a caller stops.
abbrev pub IsEnd : Tok → Type 0
IsEnd t = (t ≡ Tok.error) ⊎ (t ≡ Tok.eof)

-- No panic and no loop without an end. The lexer is on the input of `r`, inside it; it stands from `n`
-- on where the method left a value, and not before `r` where the method returned early.
abbrev pub Ends : {A : Type 0} → ℕ → Reader → Flow A × FfLexer → Type 0
Ends n r (val a, l) = Stays n r l.reader
Ends n r (ret t, l) = IsEnd t × Stays r.i r l.reader
Ends n r (crash, l) = ⊥

-- A method, called from `n` on, leaves its value from `k` on.
abbrev pub Steps : {A : Type 0} → Reader → ℕ → ℕ → M A → Type 0
Steps r n k f = (l : FfLexer) → Stays n r l.reader → Ends k r (f l)

pub Stays-whole : {n : ℕ} {r r' : Reader} → r.l ≡ length r.s → Stays n r r' → r'.l ≡ length r'.s
Stays-whole whole h = h.same_l ∙ whole ∙ ap length (sym h.same_s)

pub Stays-from : (n k : ℕ) (r r' : Reader) → Stays n r r' → k ≤ n → Stays k r r'
Stays-from n k r r' h le = record {
  same_s = h.same_s;
  same_l = h.same_l;
  low = omega (arith, h.low);
  high = h.high;
}

-- A later reader, measured from the first one.
pub Stays-then : {n k : ℕ} {r r' r'' : Reader} → Stays n r r' → Stays k r' r'' → Stays k r r''
Stays-then a b = record {
  same_s = b.same_s ∙ a.same_s;
  same_l = b.same_l ∙ a.same_l;
  low = b.low;
  high = omega (arith, b.high, a.same_l);
}

pub Ends-from :
    {A : Type 0} (n k : ℕ) (r : Reader) (w : Flow A × FfLexer) → Ends n r w → k ≤ n → Ends k r w
Ends-from n k r (val a, l) h le = Stays-from n k r l.reader h le
Ends-from n k r (ret t, l) h le = h
Ends-from n k r (crash, l) h le = elim h [ ]

pub Steps-bind :
    {A B : Type 0} (r : Reader) (n k m : ℕ) (f : M A) (g : A → M B)
    → Steps r n k f
    → ((a : A) → Steps r k m (g a))
    → Steps r n m (f >>= g)
Steps-bind r n k m f g hf hg l h = bound (f l) (hf l h)
  where
    bound : (w : Flow _ × FfLexer) → Ends k r w → Ends m r (continue g w)
    bound (val a, l') e = hg a l' e
    bound (ret t, l') e = e
    bound (crash, l') e = elim e [ ]

pub Steps-then :
    {A B : Type 0} (r : Reader) (n k m : ℕ) (f : M A) (g : M B)
    → Steps r n k f
    → Steps r k m g
    → Steps r n m (f >> g)
Steps-then r n k m f g hf hg = Steps-bind r n k m f (λ _. g) hf (λ _. hg)

pub Steps-if :
    {A : Type 0} (r : Reader) (n k : ℕ) (f g : M A) (b : Bool)
    → (b ≡ true → Steps r n k f)
    → (b ≡ false → Steps r n k g)
    → Steps r n k (if b then f else g)
Steps-if r n k f g true yes_f no_g = yes_f refl
Steps-if r n k f g false yes_f no_g = no_g refl

pub Steps-elim :
    {A : Type 0} (r : Reader) (n k : ℕ) (f g : M A) (b : Bool)
    → Steps r n k f
    → Steps r n k g
    → Steps r n k (elim b [ true ↦ f | false ↦ g ])
Steps-elim r n k f g true hf hg = hf
Steps-elim r n k f g false hf hg = hg

pub Ends-if :
    {A : Type 0} (r : Reader) (n : ℕ) (x y : Flow A × FfLexer) (b : Bool)
    → Ends n r x
    → Ends n r y
    → Ends n r (if b then x else y)
Ends-if r n x y true hx hy = hx
Ends-if r n x y false hx hy = hy

pub Steps-pure : {A : Type 0} (r : Reader) (n : ℕ) (a : A) → Steps r n n (pure a)
Steps-pure r n a l h = h

module _ (r : Reader) (whole : r.l ≡ length r.s) where
  pub Steps-fail : (A : Type 0) (n k : ℕ) (e : LexErr) → r.i ≤ n → Steps r n k (fail_with {A = A} e)
  Steps-fail A n k e le l h = (inl refl, Stays-from n r.i r l.reader h le)

  pub read_byte-Steps : (n : ℕ) → r.i ≤ n → Steps r n (suc n) read_byte
  unfolding read_byte on_read
  read_byte-Steps n le l h = elim (read_byte-Reads l.reader (Stays-whole whole h)) [
    | inl (c, r', e, s) ↦
        rw e (Stays-from (suc (l.reader.i)) (suc n) r r' (Stays-then h s) (omega (arith, h.low)))
    | inr e ↦ rw e (inl refl, Stays-from n r.i r l.reader h le)
  ]

  pub unread_byte-Steps : (n : ℕ) → Steps r (suc n) n unread_byte
  unfolding unread_byte on_unread Reader.unread_byte
  unread_byte-Steps n l h = rw (ne→== l.reader.i 0 (λ e. omega (arith, e, h.low))) (record {
    same_s = h.same_s;
    same_l = h.same_l;
    low = omega (arith, h.low);
    high = omega (arith, h.high);
  })

  pub write_from-Steps : (n start : ℕ) → start ≤ n → Steps r n n (write_from start)
  unfolding write_from on_slice Reader.slice_of
  write_from-Steps n start le l h =
      let inside = Stays-whole whole h in
      rw
        (
          le→leb start l.reader.i (omega (arith, h.low)),
          le→leb l.reader.i (length l.reader.s) (omega (arith, h.high, h.same_l)),
        )
        h

  -- A method that begins by taking the position is called from there.
  pub Steps-at :
      {A : Type 0} (n k : ℕ) (f : ℕ → M A)
      → ((start : ℕ) → n ≤ start → Steps r start (start + k) (f start))
      → Steps r n (n + k) (λ l. f l.reader.i l)
  Steps-at n k f h l s =
      let here = stay_at l s in
      Ends-from (l.reader.i + k) (n + k) r (f l.reader.i l) (h l.reader.i s.low l here)
        (omega (arith, s.low))
    where
      stay_at : (l : FfLexer) → Stays n r l.reader → Stays (l.reader.i) r l.reader
      stay_at l s = record {
        same_s = s.same_s;
        same_l = s.same_l;
        low = omega arith;
        high = s.high;
      }

  want_loop-Steps : (n : ℕ) (want : Bytes) → r.i ≤ n → Steps r n n (want_loop want)
  unfolding want_loop
  want_loop-Steps n [] le = Steps-pure r n tt
  want_loop-Steps n (b ∷ want) le =
      Steps-bind r n (suc n) n read_byte _ (read_byte-Steps n le) (λ c.
        Steps-if r (suc n) n _ _ (c == b)
          (λ e l h. want_loop-Steps n want le l (Stays-from (suc n) n r l.reader h (omega arith)))
          (λ e.
            Steps-then r (suc n) n n unread_byte _ (unread_byte-Steps n)
              (Steps-fail (Unit {0}) n n LexErr.invalid_string le)))

  pub want_bytes-Steps :
      (n : ℕ) (want : Bytes) (t : Tok) → r.i ≤ n → Steps r n n (want_bytes want t)
  unfolding want_bytes
  want_bytes-Steps n want t le l h =
      Ends-from (l.reader.i) n r (want_bytes want t l)
        (Steps-then r l.reader.i l.reader.i l.reader.i (want_loop want) _
          (want_loop-Steps l.reader.i want (omega (arith, h.low)))
          (Steps-then r l.reader.i l.reader.i l.reader.i _ _
            (write_from-Steps l.reader.i l.reader.i (omega arith)) (Steps-pure r l.reader.i t))
          l (record { same_s = h.same_s; same_l = h.same_l; low = omega arith; high = h.high }))
        h.low
