-- ===== src/Outcome.antt =====
-- A value or the error that a Go function of fflib/v1 returns. A panic of the Go runtime, and a loop
-- that runs out of fuel, are errors of their own, so that theorems can exclude them.
use ffjson.Number.Atoi.{NumError}
use ffjson.Prelude.{ℕ, Option, none, some, Bytes, get_elem?}

pub data Fault : Type 0 where
  eof : Fault
  invalid_hex_char : ℕ → Bytes → Fault
  invalid_number : NumError → Fault
  invalid_unicode_surrogate : ℕ → ℕ → Fault
  invalid_escaped_char : ℕ → Fault
  invalid_json_char : ℕ → Fault
  panic : Fault
  no_fuel : Fault

pub data Outcome {ℓ} (A : Type ℓ) : Type ℓ where
  ok : A → Outcome A
  err : Fault → Outcome A

infixl 5 ◌>>=◌
abbrev pub ◌>>=◌ {ℓ κ} : {A : Type ℓ} {B : Type κ} → Outcome A → (A → Outcome B) → Outcome B
ok a >>= f = f a
err e >>= f = err e

-- `s[j]`, which panics out of range.
abbrev pub from_option : Option ℕ → Outcome ℕ
from_option none = err panic
from_option (some c) = ok c

abbrev pub index : Bytes → ℕ → Outcome ℕ
index s j = from_option (get_elem? s j)
