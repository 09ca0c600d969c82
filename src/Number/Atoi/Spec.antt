-- ===== src/Number/Atoi/Spec.antt =====
-- What a digit string stands for, said without the overflow tests and the wrap-around of atoi.go.
use ffjson.Prelude.{ℕ, ◌+◌, ◌-◌, ◌*◌, ◌≤◌, ◌<◌, ◌⊎◌, [], ◌∷◌, Bytes, arith, ltb, if◌then◌else◌}

-- A digit below `base`: 0-9, then the letters of either case.
abbrev pub IsDigit : ℕ → ℕ → Type 0
IsDigit base d =
    ((b'0' ≤ d) × (d ≤ b'9') × (d < b'0' + base))
    ⊎ ((b'a' ≤ d) × (d ≤ b'z') × (d + 10 < b'a' + base))
    ⊎ ((b'A' ≤ d) × (d ≤ b'Z') × (d + 10 < b'A' + base))

abbrev pub AllDigits : ℕ → Bytes → Type 0
AllDigits base [] = Unit
AllDigits base (d ∷ s) = IsDigit base d × AllDigits base s

abbrev pub weight : ℕ → ℕ
weight d = if ltb d b'A' then d - b'0' else if ltb d b'a' then d + 10 - b'A' else d + 10 - b'a'

-- The number that digits spell behind `n`, with no bound.
abbrev pub value : ℕ → ℕ → Bytes → ℕ
value base n [] = n
value base n (d ∷ s) = value base (n * base + weight d) s

pub le-value : (base n : ℕ) (s : Bytes) → 1 ≤ base → n ≤ value base n s
le-value base n [] h = omega arith
le-value base n (d ∷ s) h = grind (arith, le-value base (n * base + weight d) s h)
