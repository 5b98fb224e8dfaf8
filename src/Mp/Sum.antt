-- ===== src/Mp/Sum.antt =====
-- `mpvecadd` and `mpvecsub` compute the sum and the difference of the numbers.
use native.Mathlib.Nat.{pow-suc}
use native.Mathlib.Decide.{dec_lt}
use drawterm_android.Base.{
  ℕ, suc, ◌+◌, ◌*◌, ◌^◌, ◌<◌, ◌≤◌, ◌≡◌, ◌⊎◌, inl, inr, refl, ltb, if◌then◌else◌, Option, some, List,
  [], ◌∷◌, ◌++◌, length, drop, arith, ap,
}
use drawterm_android.Mp.{
  mpdigit, flag, minus, put, add_carry, add_digits, mpvecadd, sub_borrow, sub_digits, mpvecsub,
}
use drawterm_android.Mp.Digits.{base, value, IsDigits, carry_lem, add_lem, borrow_lem, sub_lem}

-- The result is `n` digits of value `v` in front of what was behind them in `old`.
abbrev pub Holds : ℕ → ℕ → List ℕ → Option (List ℕ) → Type 0
Holds n v old r =
    (out : List ℕ) × (r ≡ some (out ++ drop n old))
    × (length out ≡ n)
    × IsDigits out
    × (value out ≡ v)

pub put-Holds :
    (d n v w s : ℕ) (old : List ℕ) (r : Option (List ℕ))
    → d < base
    → d + base * v ≡ w
    → Holds n v old r
    → Holds (suc n) w (s ∷ old) (put d r)
unfolding put
put-Holds d n v w s old r h e (out, run, l, digits, val) =
    (d ∷ out, ap (put d) run, ap suc l, (h, digits), omega (arith, val, e))

add_carry_lem :
    (a sum : List ℕ) (c : ℕ)
    → c ≤ 1
    → IsDigits a
    → length a < length sum
    → Holds (suc (length a)) (value a + c) sum (add_carry c a sum)
unfolding add_carry
add_carry_lem a [] c h k l = elim l [ ]
add_carry_lem [] (s ∷ sum) c h k l = (c ∷ [], refl, refl, (omega arith, tt), omega arith)
add_carry_lem (x ∷ a) (s ∷ sum) c h k l =
    let (d, c', e) = carry_lem x c (k.0) h in
    put-Holds _ (suc (length a)) _ _ s sum _ d (omega (arith, e))
      (add_carry_lem a sum _ c' (k.1) (omega arith))

add_digits_lem :
    (a b sum : List ℕ) (c : ℕ)
    → c ≤ 1
    → IsDigits a
    → IsDigits b
    → length b ≤ length a
    → length a < length sum
    → Holds (suc (length a)) (value a + value b + c) sum (add_digits c a b sum)
unfolding add_digits
add_digits_lem a [] sum c h k l m n =
    let (out, run, len, digits, val) = add_carry_lem a sum c h k n in
    (out, run, len, digits, omega (arith, val))
add_digits_lem [] (y ∷ b) sum c h k l m n = elim m [ ]
add_digits_lem (x ∷ a) (y ∷ b) [] c h k l m n = elim n [ ]
add_digits_lem (x ∷ a) (y ∷ b) (s ∷ sum) c h k l m n =
    let (d, c', e) = add_lem x y c (k.0) (l.0) h in
    put-Holds _ (suc (length a)) _ _ s sum _ d (omega (arith, e))
      (add_digits_lem a b sum _ c' (k.1) (l.1) (omega arith) (omega arith))

-- For digits `a` and no more digits `b`, and a `sum` with room for a digit more than `a` has, the
-- digits stored are one more than those of `a` and stand for the sum of the two numbers, and what
-- is behind them in `sum` stays.
pub mpvecadd-value :
    (a b sum : List ℕ)
    → IsDigits a
    → IsDigits b
    → length b ≤ length a
    → length a < length sum
    → Holds (suc (length a)) (value a + value b) sum (mpvecadd a b sum)
unfolding mpvecadd
mpvecadd-value a b sum h k l m =
    let (out, run, len, digits, val) = add_digits_lem a b sum 0 (omega arith) h k l m in
    (out, run, len, digits, omega (arith, val))

-- The stored digits are right, but for a borrow out of the highest.
abbrev Borrows : ℕ → ℕ → ℕ → List ℕ → Option (List ℕ) → Type 0
Borrows n a b old r =
    (v : ℕ) × Holds n v old r × (v < base ^ n) × ((v + b ≡ a) ⊎ (v + b ≡ a + base ^ n))

put-Borrows :
    (d n a b a' b' s : ℕ) (old : List ℕ) (r : Option (List ℕ))
    → d < base
    → d + b' + base * a ≡ a' + base * b
    → Borrows n a b old r
    → Borrows (suc n) a' b' (s ∷ old) (put d r)
put-Borrows d n a b a' b' s old r h e (v, holds, fits, outcome) = (
  d + base * v,
  put-Holds d n v _ s old r h refl holds,
  omega (arith, pow-suc base n),
  elim outcome [
    | inl f ↦ inl (omega (arith, f, e))
    | inr f ↦ inr (omega (arith, f, e, pow-suc base n))
  ],
)

sub_borrow_lem :
    (a diff : List ℕ) (c : ℕ)
    → c ≤ 1
    → IsDigits a
    → length a ≤ length diff
    → Borrows (length a) (value a) c diff (sub_borrow c a diff)
unfolding sub_borrow
sub_borrow_lem [] diff c h k l = (
  0,
  ([], refl, refl, tt, refl),
  omega arith,
  elim (dec_lt 0 c) [ yes p ↦ inr (omega arith) | no p ↦ inl (omega arith) ],
)
sub_borrow_lem (x ∷ a) [] c h k l = elim l [ ]
sub_borrow_lem (x ∷ a) (s ∷ diff) c h k l =
    let (d, c', e) = borrow_lem x c (k.0) h in
    let c1 : ℕ = flag (ltb x (minus x c)) in
    put-Borrows _ (length a) (value a) c1 (value (x ∷ a)) c s diff _ d (omega (arith, e))
      (sub_borrow_lem a diff c1 c' (k.1) (omega arith))

sub_digits_lem :
    (a b diff : List ℕ) (c : ℕ)
    → c ≤ 1
    → IsDigits a
    → IsDigits b
    → length b ≤ length a
    → length a ≤ length diff
    → Borrows (length a) (value a) (value b + c) diff (sub_digits c a b diff)
unfolding sub_digits
sub_digits_lem a [] diff c h k l m n =
    let (v, holds, fits, outcome) = sub_borrow_lem a diff c h k n in
    (
      v,
      holds,
      fits,
      elim outcome [ inl f ↦ inl (omega (arith, f)) | inr f ↦ inr (omega (arith, f)) ],
    )
sub_digits_lem [] (y ∷ b) diff c h k l m n = elim m [ ]
sub_digits_lem (x ∷ a) (y ∷ b) [] c h k l m n = elim n [ ]
sub_digits_lem (x ∷ a) (y ∷ b) (s ∷ diff) c h k l m n =
    let (d, c', e) = sub_lem x y c (k.0) (l.0) h in
    let y1 : ℕ = mpdigit (y + c) in
    let w : ℕ = flag (ltb y1 c) in
    let c1 : ℕ = if ltb x y1 then w + 1 else w in
    put-Borrows _ (length a) (value a) (value b + c1) (value (x ∷ a)) (value (y ∷ b) + c) s diff _ d
      (omega (arith, e)) (sub_digits_lem a b diff c1 c' (k.1) (l.1) (omega arith) (omega arith))

-- For digits `a` of a number that is not below that of `b`, which has no more digits, and a `diff`
-- with room for as many digits as `a` has, the digits stored are as many as those of `a`, and what
-- they stand for and the number of `b` make up the number of `a`; what is behind them in `diff`
-- stays.
pub mpvecsub-value :
    (a b diff : List ℕ)
    → IsDigits a
    → IsDigits b
    → length b ≤ length a
    → length a ≤ length diff
    → value b ≤ value a
    → (v : ℕ) × Holds (length a) v diff (mpvecsub a b diff) × (v + value b ≡ value a)
unfolding mpvecsub
mpvecsub-value a b diff h k l m n =
    let (v, holds, fits, outcome) = sub_digits_lem a b diff 0 (omega arith) h k l m in
    (v, holds, elim outcome [ inl e ↦ omega (arith, e) | inr e ↦ omega (arith, e, fits) ])
