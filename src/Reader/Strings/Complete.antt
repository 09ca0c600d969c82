-- ===== src/Reader/Strings/Complete.antt =====
-- `SliceString` reads every string body of the grammar.
use ffjson.Go.Utf16
use ffjson.Go.Utf8.{encode_rune}
use ffjson.Outcome.{ok}
use ffjson.Reader.Strings.Decodes.{AllPlain, Decodes}
use ffjson.Reader.Strings.Escapes.{pending_at, escape_at, unicode_at, pair_at}
use ffjson.Reader.Strings.{
  scan_from, scan_string, handle_escaped, close_quote, after_escape, at_special, slice_round,
  slice_loop, slice_string,
}
use ffjson.Reader.{Reader}
use ffjson.Tables.{has_flag-special, string_special}
use ffjson.Prelude.{
  ℕ, zero, suc, ◌+◌, ◌<◌, ◌≡◌, refl, sym, ap, ◌∙◌, true, false, [], ◌∷◌, ◌++◌, append_assoc,
  append-nil, arith, leb, lt→leb, ◌==◌, Bytes, length, length-append, length-drop, drop, drop_next,
  drop-append,
}

AllPlain-concat :
    (a : Bytes) (c : ℕ) → AllPlain a → string_special c ≡ false → AllPlain (a ++ c ∷ [])
AllPlain-concat [] c _ h = (h, tt)
AllPlain-concat (x ∷ a) c (hx, ha) h = (hx, AllPlain-concat a c ha h)

scan_from_lem :
    (a : Bytes) (c : ℕ) (t : Bytes) (j : ℕ)
    → AllPlain a
    → string_special c ≡ true
    → scan_from (a ++ c ∷ t) j ≡ (j + length a + 1, c)
unfolding scan_from
scan_from_lem [] c t j _ h =
    let e : j + 1 ≡ j + 0 + 1 = omega arith in rw (has_flag-special c, h, e)
scan_from_lem (x ∷ a) c t j (hx, ha) h =
    let e : j + 1 + length a + 1 ≡ j + suc (length a) + 1 = omega arith in
    rw (has_flag-special x, hx, scan_from_lem a c t (j + 1) ha h, e)

module _ (f : ℕ) (r : Reader) (whole : r.l ≡ length r.s) (a : Bytes) (plain_a : AllPlain a) where
  scan_string_at :
      (c : ℕ) (t : Bytes)
      → drop r.i r.s ≡ a ++ c ∷ t
      → string_special c ≡ true
      → scan_string r.s r.i ≡ (r.i + length a + 1, c)
  unfolding scan_string
  scan_string_at c t h special = rw h (scan_from_lem a c t r.i plain_a special)

  not_at_end : (c : ℕ) (t : Bytes) → drop r.i r.s ≡ a ++ c ∷ t → leb r.l r.i ≡ false
  not_at_end c t h =
      lt→leb r.l r.i
        (omega (arith, length-drop r.i r.s, ap length h, length-append a (c ∷ t), whole))

  round_at :
      (c : ℕ) (t out : Bytes)
      → drop r.i r.s ≡ a ++ c ∷ t
      → string_special c ≡ true
      → slice_round r r.i out ≡ at_special r out (r.i + length a + 1, c)
  unfolding slice_round
  round_at c t out h special = rw (not_at_end c t h, scan_string_at c t h special)

  loop_quote :
      (t out : Bytes)
      → drop r.i r.s ≡ a ++ b'"' ∷ t
      → slice_loop (suc f) r r.i out ≡ (ok tt, record r { i = r.i + length a + 1 }, out ++ a)
  unfolding slice_loop at_special close_quote
  loop_quote t out h =
      let moved : ((r.i + length a + 1) == r.i) ≡ false = ground arith in
      rw (
        slice_loop,
        round_at b'"' t out h refl,
        close_quote,
        moved,
        pending_at r whole (r.i + length a + 1) a (b'"' ∷ t) 1 h (omega arith) refl,
      )

  loop_escape :
      (t out : Bytes) (k : ℕ) (r' : Reader) (out' : Bytes)
      → drop r.i r.s ≡ a ++ b'\\' ∷ t
      → handle_escaped r (r.i + length a + 1) out ≡ (ok k, r', out')
      → slice_loop (suc f) r r.i out ≡ slice_loop f r' k out'
  unfolding slice_loop at_special after_escape
  loop_escape t out k r' out' h e = rw (slice_loop, round_at b'\\' t out h refl, e)

-- The position behind a backslash that stands behind `a`.
behind : Reader → Bytes → ℕ
behind r a = r.i + length a + 1

drop-behind :
    (r : Reader) (a : Bytes) (c : ℕ) {t : Bytes}
    → drop r.i r.s ≡ a ++ c ∷ t
    → drop (behind r a) r.s ≡ t
unfolding behind
drop-behind r a c h = drop_next r.s (r.i + length a) (drop-append r.s a r.i h)

-- A round over an escape `e`, and the rounds behind it, which read `t`.
escape_step :
    (f : ℕ) (r : Reader) (a e t tail out bytes d : Bytes) (n m : ℕ)
    → r.l ≡ length r.s
    → AllPlain a
    → drop r.i r.s ≡ a ++ b'\\' ∷ tail
    → n ≡ behind r a + length e
    → m ≡ suc (length e + length t)
    → handle_escaped r (behind r a) out ≡ (ok n, record r { i = n }, out ++ (a ++ bytes))
    → slice_loop f (record r { i = n }) n (out ++ (a ++ bytes))
      ≡ (ok tt, record r { i = n + 0 + length t + 1 }, out ++ (a ++ bytes) ++ d)
    → slice_loop (suc f) r r.i out
      ≡ (ok tt, record r { i = r.i + length a + m + 1 }, out ++ (a ++ (bytes ++ d)))
unfolding behind
escape_step f r a e t tail out bytes d n m whole pa h at size hand later =
    let k : n + 0 + length t + 1 ≡ r.i + length a + m + 1 = omega arith in
    loop_escape f r whole a pa tail out n (record r { i = n }) (out ++ (a ++ bytes)) h hand
    ∙ later
    ∙ rw (k, append_assoc, append_assoc)

-- The loop on `a`, bytes that stand for themselves and are not written yet, and then a body.
decode_loop :
    {body d : Bytes}
    → Decodes body d
    → (f : ℕ) (r : Reader) (a rest out : Bytes) → r.l ≡ length r.s
    → AllPlain a
    → length body < f
    → drop r.i r.s ≡ a ++ (body ++ b'"' ∷ rest)
    → slice_loop f r r.i out
      ≡ (ok tt, record r { i = r.i + length a + length body + 1 }, out ++ (a ++ d))
decode_loop Decodes.done zero r a rest out whole pa lt h = absurd (omega arith)
decode_loop Decodes.done (suc f) r a rest out whole pa lt h =
    let e : r.i + length a + 0 + 1 ≡ r.i + length a + 1 = omega arith in
    rw (loop_quote f r whole a pa rest out h, append-nil, e)
decode_loop (Decodes.plain {c} {t} {d} pc k) f r a rest out whole pa lt h =
    let e : r.i + length (a ++ c ∷ []) + length t + 1 ≡ r.i + length a + suc (length t) + 1 =
      omega (arith, length-append a (c ∷ [])) in
    decode_loop k f r (a ++ c ∷ []) rest out whole (AllPlain-concat a c pa pc) (omega arith)
      (h ∙ sym (append_assoc a (c ∷ []) (t ++ b'"' ∷ rest)))
    ∙ rw (e, append_assoc)
decode_loop (Decodes.escape _ _) zero r a rest out whole pa lt h = absurd (omega arith)
decode_loop (Decodes.escape {c} {b} {t} {d} esc k) (suc f) r a rest out whole pa lt h =
    let at = drop-behind r a b'\\' h in
    let n = behind r a + 1 in
    escape_step f r a (c ∷ []) t _ out (b ∷ []) d n _ whole pa h refl (omega arith)
      (escape_at r whole (behind r a) c b a _ out h at (unfold behind in refl) esc)
      (decode_loop k f (record r { i = n }) [] rest (out ++ (a ++ b ∷ [])) whole tt (omega arith)
        (drop-append r.s (c ∷ []) (behind r a) at))
decode_loop (Decodes.unicode _ _ _) zero r a rest out whole pa lt h = absurd (omega arith)
decode_loop (Decodes.unicode {h1} {h2} {h3} {h4} {u} {t} {d} sp plain_u k) (suc f) r a rest out
      whole pa lt h =
    let at = drop-behind r a b'\\' h in
    let n = behind r a + 5 in
    let e = b'u' ∷ h1 ∷ h2 ∷ h3 ∷ h4 ∷ [] in
    escape_step f r a e t _ out (encode_rune u) d n _ whole pa h refl (omega arith)
      (unicode_at r whole (behind r a) h1 h2 h3 h4 u a _ out h at (unfold behind in refl) sp
        plain_u)
      (decode_loop k f (record r { i = n }) [] rest (out ++ (a ++ encode_rune u)) whole tt
        (omega arith) (drop-append r.s e (behind r a) at))
decode_loop (Decodes.pair _ _ _ _ _) zero r a rest out whole pa lt h = absurd (omega arith)
decode_loop
      (Decodes.pair {h1} {h2} {h3} {h4} {u} {x} {y} {k1} {k2} {k3} {k4} {v} {t} {d} sp high sp2
        paired k)
      (suc f) r a rest out whole pa lt h =
    let at = drop-behind r a b'\\' h in
    let n = behind r a + 11 in
    let e = b'u' ∷ h1 ∷ h2 ∷ h3 ∷ h4 ∷ x ∷ y ∷ k1 ∷ k2 ∷ k3 ∷ k4 ∷ [] in
    let bytes = encode_rune (Utf16.decode_rune u v) in
    escape_step f r a e t _ out bytes d n _ whole pa h refl (omega arith)
      (pair_at r whole (behind r a) h1 h2 h3 h4 u x y k1 k2 k3 k4 v a _ out h at
        (unfold behind in refl) sp high sp2 paired)
      (decode_loop k f (record r { i = n }) [] rest (out ++ (a ++ bytes)) whole tt (omega arith)
        (drop-append r.s e (behind r a) at))

-- `SliceString` at a string body of the grammar with its closing quote, the limit `l` being the length
-- of the slice: it returns no error, appends the bytes that the body stands for to the buffer, and
-- leaves the reader behind the quote.
pub slice_string-Decodes :
    {body d : Bytes} (r : Reader) (rest out : Bytes)
    → r.l ≡ length r.s
    → Decodes body d
    → drop r.i r.s ≡ body ++ b'"' ∷ rest
    → slice_string r out ≡ (ok tt, record r { i = r.i + length body + 1 }, out ++ d)
unfolding slice_string
slice_string-Decodes {body} r rest out whole k h =
    let e : r.i + 0 + length body + 1 ≡ r.i + length body + 1 = omega arith in
    decode_loop k (suc (length r.s)) r [] rest out whole tt fuel h ∙ rw e
  where
    fuel : length body < suc (length r.s)
    fuel = omega (arith, length-drop r.i r.s, ap length h, length-append body (b'"' ∷ rest))
