-- ===== src/Inception/Balanced.antt =====
-- inception/encoder.go: routines of the generator and the brackets of the code that they return.
use ffjson.Inception.Brackets.{
  raw, scan_brackets, read_char, Brings, Brings-append, held, held-scan_brackets,
  scan_brackets-append,
}
use ffjson.Inception.Queue.{
  push, left_after, delete_last, join, write_statement, flush_queue, queue_write, drop_write,
  flush_writes, get_queued, write_flush,
}
use ffjson.Inception.{Inception, Gen, ◌then◌, say, say_line, needs}
use ffjson.Prelude.{ℕ, ◌≡◌, refl, true, List, [], ◌∷◌, ◌++◌, Bytes, codes, arith}

-- The writes that are pending stay in the literals that they are written in.
abbrev pub AreHeld : List Bytes → Type 0
AreHeld [] = Unit
AreHeld (s ∷ queued) = (held s ≡ true) × AreHeld queued

-- A routine that goes from one stack of open brackets to another.
pub record Takes (a : List ℕ) (g : Gen) (b : List ℕ) : Type 0 where
  pub on : (s : Inception) → AreHeld s.queued → Brings a (g s).0 b × AreHeld (g s).1.queued

-- The brackets of the code match, wherever it stands.
abbrev pub IsBalanced : Gen → Type 0
IsBalanced g = (a : List ℕ) → Takes a g a

infixr 4 ◌∙∙◌
pub ◌∙∙◌ : {a b c : List ℕ} {g h : Gen} → Takes a g b → Takes b h c → Takes a (g then h) c
unfolding ◌then◌
◌∙∙◌ {a} {b} {c} {g} {h} first next = record {
  on = λ s holds.
      let (goes, held_then) = first.on s holds in
      let (goes', held_after) = next.on (g s).1 held_then in
      (Brings-append a b c (g s).0 (h (g s).1).0 goes goes', held_after);
}

pub say-Takes : {a b : List ℕ} (t : Bytes) → Brings a t b → Takes a (say t) b
unfolding say
say-Takes t goes = record { on = λ s holds. (goes, holds) }

pub say_line-Takes : {a b : List ℕ} (t : Bytes) → Brings a t b → Takes a (say_line t) b
unfolding say_line say scan_brackets read_char
say_line-Takes {a} {b} t goes = record {
  on = λ s holds. (Brings-append a b b t (codes "\n") goes refl, holds);
}

pub needs-Takes : {a : List ℕ} (path : Bytes) → Takes a (needs path) a
unfolding needs scan_brackets
needs-Takes path = record { on = λ s holds. (refl, holds) }

pub push-AreHeld :
    (s : Bytes) (queued : List Bytes) → held s ≡ true → AreHeld queued → AreHeld (push s queued)
unfolding push
push-AreHeld s [] h holds = (h, tt)
push-AreHeld s (t ∷ queued) h (h', holds) = (h', push-AreHeld s queued h holds)

pub queue_write-Takes : {a : List ℕ} (s : Bytes) → held s ≡ true → Takes a (queue_write s) a
unfolding queue_write scan_brackets
queue_write-Takes {a} s h = record { on = λ st holds. (refl, push-AreHeld s st.queued h holds) }

delete_last-AreHeld : (queued : List Bytes) → AreHeld queued → AreHeld (delete_last queued)
unfolding delete_last
delete_last-AreHeld [] holds = tt
delete_last-AreHeld (s ∷ []) holds = tt
delete_last-AreHeld (s ∷ t ∷ queued) (h, holds) = (h, delete_last-AreHeld (t ∷ queued) holds)

pub drop_write-Takes : {a : List ℕ} → Takes a drop_write a
unfolding drop_write scan_brackets
drop_write-Takes = record { on = λ st holds. (refl, delete_last-AreHeld st.queued holds) }

held-append : (s t : Bytes) → held s ≡ true → held t ≡ true → held (s ++ t) ≡ true
held-append [] t h h' = h'
held-append (c ∷ s) t h h' = ground (arith, held-append s t)

held-join : (queued : List Bytes) → AreHeld queued → held (join queued) ≡ true
unfolding join
held-join [] holds = refl
held-join (s ∷ queued) (h, holds) = held-append s (join queued) h (held-join queued holds)

write_statement-Brings : (a : List ℕ) (t : Bytes) → held t ≡ true → Brings a (write_statement t) a
unfolding write_statement scan_brackets read_char
write_statement-Brings a [] h = refl
write_statement-Brings a (c ∷ []) h = ground arith
write_statement-Brings a (c ∷ d ∷ t) h =
    scan_brackets-append raw (b'(' ∷ a) (c ∷ d ∷ t) (codes "`)\n")
      (held-scan_brackets (b'(' ∷ a) (c ∷ d ∷ t) h)

pub flush_queue-Brings :
    (a : List ℕ) (queued : List Bytes) → AreHeld queued → Brings a (flush_queue queued).0 a
unfolding flush_queue
flush_queue-Brings a queued holds = write_statement-Brings a (join queued) (held-join queued holds)

left-AreHeld : (t : Bytes) (queued : List Bytes) → AreHeld queued → AreHeld (left_after t queued)
left-AreHeld [] queued holds = holds
left-AreHeld (c ∷ t) queued holds = tt

pub flush_writes-Takes : {a : List ℕ} → Takes a flush_writes a
unfolding flush_writes flush_queue
flush_writes-Takes {a} = record {
  on = λ st holds.
      (flush_queue-Brings a st.queued holds, left-AreHeld (join st.queued) st.queued holds);
}

pub get_queued-Takes : {a : List ℕ} → Takes a get_queued a
unfolding get_queued flush_queue
get_queued-Takes {a} = record { on = λ st holds. (flush_queue-Brings a st.queued holds, holds) }

pub write_flush-Takes : {a : List ℕ} (s : Bytes) → held s ≡ true → Takes a (write_flush s) a
write_flush-Takes s h = queue_write-Takes s h ∙∙ flush_writes-Takes
