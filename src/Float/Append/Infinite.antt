-- ===== src/Float/Append/Infinite.antt =====
-- fflib/v1/ftoa.go: the numbers whose exponent is all ones.
use ffjson.Float.Append.{FastPaths, special_name, append_bits, append_float}
use ffjson.Decimal.{ℤ}
use ffjson.Lexer.Number.Grammar.{NumberText, Sign, unsigned, minus, IntPart, lone_zero, nonzero}
use ffjson.Lexer.{Tok}
use ffjson.Outcome.{ok}
use ffjson.Prelude.{
  ℕ, ◌/◌, ◌%◌, ◌^◌, ◌≡◌, refl, Bool, true, false, not, ◌∷◌, ◌++◌, ◌==◌, if◌then◌else◌, Bytes, codes,
  between, arith,
}

head_of : (c d : ℕ) (s t : Bytes) → ◌≡◌ {A = Bytes} (c ∷ s) (d ∷ t) → c ≡ d
head_of c d s t e = cc

second_of : (c c' d d' : ℕ) (s t : Bytes) → ◌≡◌ {A = Bytes} (c ∷ d ∷ s) (c' ∷ d' ∷ t) → d ≡ d'
second_of c c' d d' s t e = cc

-- No number starts with this character, nor with a minus in front of the next one.
no_number :
    (c d : ℕ) (s sign int rest : Bytes)
    → between b'0' b'9' c ≡ false
    → between b'0' b'9' d ≡ false
    → Sign sign
    → IntPart int
    → ◌≡◌ {A = Bytes} (c ∷ d ∷ s) (sign ++ (int ++ rest))
    → ⊥
no_number c d s sign int rest h h' unsigned lone_zero e =
    let same = head_of c b'0' (d ∷ s) rest e in ground (arith, h, same)
no_number c d s sign int rest h h' unsigned (nonzero {d = x} {ds = ds} in_range digits) e =
    let same = head_of c x (d ∷ s) (ds ++ rest) e in ground (arith, h, same, in_range)
no_number c d s sign int rest h h' minus lone_zero e =
    let same = second_of c b'-' d b'0' s rest e in ground (arith, h', same)
no_number c d s sign int rest h h' minus (nonzero {d = x} {ds = ds} in_range digits) e =
    let same = second_of c b'-' d x s (ds ++ rest) e in ground (arith, h', same, in_range)

special-NumberText :
    (nan neg : Bool) (tok : Tok)
    → NumberText (if nan then codes "NaN" else (if neg then codes "-Inf" else codes "+Inf")) tok
    → ⊥
special-NumberText true neg tok k =
    no_number b'N' b'a' (codes "N") k.sign k.int (k.frac ++ k.exp) refl refl k.sign_ok k.int_ok
      k.text_eq
special-NumberText false true tok k =
    no_number b'-' b'I' (codes "nf") k.sign k.int (k.frac ++ k.exp) refl refl k.sign_ok k.int_ok
      k.text_eq
special-NumberText false false tok k =
    no_number b'+' b'I' (codes "nf") k.sign k.int (k.frac ++ k.exp) refl refl k.sign_ok k.int_ok
      k.text_eq

-- AppendFloat of a float64 whose exponent is all ones, in any format and with any precision, whatever
-- the fast paths give: it writes a text that is no number of JSON.
pub append_float-special :
    (fast : FastPaths) (bits fmt : ℕ) (prec : ℤ)
    → bits / 2 ^ 52 % 2 ^ 11 ≡ 2047
    → (text : Bytes) × (append_float fast bits fmt prec 64 ≡ ok text)
      × ((tok : Tok) → NumberText text tok → ⊥)
unfolding append_float append_bits
append_float-special fast bits fmt prec ones =
    let mant = bits % 2 ^ 52 in
    let neg = not (bits / 2 ^ 63 == 0) in
    let all_ones : (bits / 2 ^ 52 % 2 ^ 11 == 2047) ≡ true = rw (ones) refl in
    (special_name mant neg, rw all_ones refl, special-NumberText (not (mant == 0)) neg)
