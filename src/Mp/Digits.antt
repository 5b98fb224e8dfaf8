-- ===== src/Mp/Digits.antt =====
-- The number that a vector of digits stands for, and what one round of each loop computes.
use drawterm_android.Base.{
  ℕ, ◌+◌, ◌*◌, ◌<◌, ◌≤◌, ◌≡◌, ltb, if◌then◌else◌, List, [], ◌∷◌, All, arith,
}
use drawterm_android.Mp.{mpdigit, minus, flag}

abbrev pub base : ℕ
base = 4294967296

abbrev pub value : List ℕ → ℕ
value [] = 0
value (d ∷ ds) = d + base * value ds

abbrev pub IsDigits : List ℕ → Type 0
IsDigits ds = All (λ d. d < base) ds

pub carry_lem :
    (a c : ℕ)
    → a < base
    → c ≤ 1
    → let x = mpdigit (a + c) in
      let c' = flag (ltb x c) in (x < base) × (c' ≤ 1) × (x + base * c' ≡ a + c)
carry_lem a c h k = ground arith

pub add_lem :
    (a b c : ℕ)
    → a < base
    → b < base
    → c ≤ 1
    → let x = mpdigit (a + c) in
      let w = flag (ltb x c) in
      let t = mpdigit (x + b) in
      let c' = if ltb t b then w + 1 else w in (t < base) × (c' ≤ 1) × (t + base * c' ≡ a + b + c)
add_lem a b c h k l = ground arith

pub borrow_lem :
    (a c : ℕ)
    → a < base
    → c ≤ 1
    → let y = minus a c in
      let c' = flag (ltb a y) in (y < base) × (c' ≤ 1) × (y + c ≡ a + base * c')
borrow_lem a c h k = ground arith

pub sub_lem :
    (a b c : ℕ)
    → a < base
    → b < base
    → c ≤ 1
    → let y = mpdigit (b + c) in
      let w = flag (ltb y c) in
      let c' = if ltb a y then w + 1 else w in
      (minus a y < base) × (c' ≤ 1) × (minus a y + b + c ≡ a + base * c')
sub_lem a b c h k l = ground arith
