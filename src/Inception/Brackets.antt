-- ===== src/Inception/Brackets.antt =====
-- The brackets of Go code: those outside of literals and comments, on a stack of the open ones.
use ffjson.Prelude.{
  ℕ, ◌≡◌, refl, ◌∙◌, Bool, true, false, not, ◌&&◌, ◌||◌, Option, none, some, List, [], ◌∷◌, ◌++◌,
  ◌==◌, if◌then◌else◌, Bytes, arith,
}

pub data Mode : Type 0 where
  code : Mode
  slash : Mode
  rest_of_line : Mode
  comment : Mode
  star : Mode
  raw : Mode
  quoted : Mode
  quoted_escape : Mode
  rune : Mode
  rune_escape : Mode

-- The top of the stack is taken if it is the bracket expected.
abbrev pub close : ℕ → List ℕ → Option (Mode × List ℕ)
close c [] = none
close c (top ∷ rest) = if c == top then some (code, rest) else none

abbrev pub read_code : List ℕ → ℕ → Option (Mode × List ℕ)
read_code st c =
    if c == b'(' || c == b'[' || c == b'{'
    then some (code, c ∷ st)
    else if c == b')'
    then close b'(' st
    else if c == b']'
    then close b'[' st
    else if c == b'}'
    then close b'{' st
    else if c == b'`'
    then some (raw, st)
    else if c == b'"'
    then some (quoted, st)
    else if c == b'\''
    then some (rune, st)
    else if c == b'/'
    then some (slash, st)
    else some (code, st)

unfoldable pub read_char : Mode → List ℕ → ℕ → Option (Mode × List ℕ)
read_char code st c = read_code st c
read_char slash st c =
    if c == b'/'
    then some (rest_of_line, st)
    else if c == b'*'
    then some (comment, st)
    else read_code st c
read_char rest_of_line st c = if c == b'\n' then some (code, st) else some (rest_of_line, st)
read_char comment st c = if c == b'*' then some (star, st) else some (comment, st)
read_char star st c =
    if c == b'/' then some (code, st) else if c == b'*' then some (star, st) else some (comment, st)
read_char raw st c = if c == b'`' then some (code, st) else some (raw, st)
read_char quoted st c =
    if c == b'"'
    then some (code, st)
    else if c == b'\\'
    then some (quoted_escape, st)
    else some (quoted, st)
read_char quoted_escape st c = some (quoted, st)
read_char rune st c =
    if c == b'\''
    then some (code, st)
    else if c == b'\\'
    then some (rune_escape, st)
    else some (rune, st)
read_char rune_escape st c = some (rune, st)

-- Where the reader is behind a text; nothing where a bracket closes that does not match.
unfoldable pub scan_brackets : Mode → List ℕ → Bytes → Option (Mode × List ℕ)
unfolding read_char
scan_brackets m st [] = some (m, st)
scan_brackets m st (c ∷ t) = elim (read_char m st c) [
  | none ↦ none
  | some (m', st') ↦ scan_brackets m' st' t
]

-- The text is code in front and behind.
abbrev pub Brings : List ℕ → Bytes → List ℕ → Type 0
Brings st t st' = scan_brackets code st t ≡ some (code, st')

pub scan_brackets-append :
    (m : Mode) (st : List ℕ) (t : Bytes) {m' : Mode} {st' : List ℕ} (u : Bytes)
    → scan_brackets m st t ≡ some (m', st')
    → scan_brackets m st (t ++ u) ≡ scan_brackets m' st' u
unfolding scan_brackets
scan_brackets-append m st [] {m'} {st'} u h = at h
  where
    at :
        ◌≡◌ {A = Option (Mode × List ℕ)} (some (m, st)) (some (m', st'))
        → scan_brackets m st u ≡ scan_brackets m' st' u
    at e = cc
scan_brackets-append m st (c ∷ t) {m'} {st'} u h =
    at (read_char m st c) (λ m'' st'' e. scan_brackets-append m'' st'' t u e) h
  where
    at :
        (o : Option (Mode × List ℕ))
        → ((m'' : Mode) (st'' : List ℕ)
            → scan_brackets m'' st'' t ≡ some (m', st')
            → scan_brackets m'' st'' (t ++ u) ≡ scan_brackets m' st' u)
        → (elim o [ none ↦ none | some (m'', st'') ↦ scan_brackets m'' st'' t ]) ≡ some (m', st')
        → (elim o [ none ↦ none | some (m'', st'') ↦ scan_brackets m'' st'' (t ++ u) ])
          ≡ scan_brackets m' st' u
    at none next e = cc
    at (some (m'', st'')) next e = next m'' st'' e

-- Characters that leave the reader of code where it is.
abbrev pub is_plain : Bytes → Bool
is_plain [] = true
is_plain (c ∷ t) =
    not (c == b'(' || c == b'[' || c == b'{')
    && not (c == b')')
    && not (c == b']')
    && not (c == b'}')
    && not (c == b'`')
    && not (c == b'"')
    && not (c == b'\'')
    && not (c == b'/')
    && is_plain t

-- Characters that leave the reader of a literal where it is.
abbrev pub held : Bytes → Bool
held [] = true
held (c ∷ t) = not (c == b'`') && not (c == b'\'') && not (c == b'\\') && held t

-- A comment would end in the text.
abbrev pub ends_comment : Bool → Bytes → Bool
ends_comment after_star [] = false
ends_comment after_star (c ∷ t) = after_star && c == b'/' || ends_comment (c == b'*') t

pub is_plain-Brings : (st : List ℕ) (t : Bytes) → is_plain t ≡ true → Brings st t st
unfolding scan_brackets read_char
is_plain-Brings st [] h = refl
is_plain-Brings st (c ∷ t) h = ground (arith, is_plain-Brings st t)

pub Brings-append :
    (st st' st'' : List ℕ) (t u : Bytes)
    → Brings st t st'
    → Brings st' u st''
    → Brings st (t ++ u) st''
Brings-append st st' st'' t u h h' = scan_brackets-append code st t u h ∙ h'

pub held-scan_brackets :
    (st : List ℕ) (t : Bytes) → held t ≡ true → scan_brackets raw st t ≡ some (raw, st)
unfolding scan_brackets read_char
held-scan_brackets st [] h = refl
held-scan_brackets st (c ∷ t) h = ground (arith, held-scan_brackets st t)

-- In a comment, behind a star or not.
abbrev pub in_comment : Bool → Mode
in_comment true = star
in_comment false = comment

-- A text that ends no comment, and a space.
pub comment_scan :
    (st : List ℕ) (after_star : Bool) (t u : Bytes)
    → ends_comment after_star t ≡ false
    → scan_brackets (in_comment after_star) st (t ++ b' ' ∷ u) ≡ scan_brackets comment st u
unfolding scan_brackets read_char
comment_scan st true [] u h = refl
comment_scan st false [] u h = refl
comment_scan st true (c ∷ t) u h =
    ground (arith, comment_scan st true t u, comment_scan st false t u)
comment_scan st false (c ∷ t) u h =
    ground (arith, comment_scan st true t u, comment_scan st false t u)
