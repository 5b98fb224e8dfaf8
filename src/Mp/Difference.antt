-- ===== src/Mp/Difference.antt =====
-- `mpvecdigmulsub` takes a multiple of a number away.
use native.Mathlib.Nat.{pow-suc}
use drawterm_android.Base.{
  ℕ, suc, ◌+◌, ◌*◌, ◌^◌, ◌<◌, ◌≤◌, ◌≡◌, ◌⊎◌, inl, inr, refl, Option, some, List, [], ◌∷◌, ◌++◌,
  length, drop, take, arith, ap, Bool, true, false,
}
use drawterm_android.Mp.{
  mpdigmul, mulsub_step, mulsub_end, put_first, mulsub_digits, mpvecdigmulsub,
}
use drawterm_android.Mp.Digits.{base, value, IsDigits}
use drawterm_android.Mp.Product.{mpdigmul_lem, square_le}

step_lem :
    (borrow part1 x low high : ℕ)
    → borrow + part1 < base
    → borrow ≤ 2
    → x < base
    → low < base
    → low + base * high ≤ 18446744065119617025
    → let s = mulsub_step borrow part1 x (low, high) in
      (s.0 < base)
      × (s.1 + high < base)
      × (s.1 ≤ 2)
      × (s.0 + (low + base * high) + part1 + borrow ≡ x + base * (s.1 + high))
unfolding mulsub_step
step_lem borrow part1 x low high h b k l m = ground arith

end_lem :
    (borrow part1 x : ℕ)
    → borrow + part1 < base
    → x < base
    → let e = mulsub_end borrow part1 x in
      (e.0 < base)
      × (((e.1 ≡ true) × (e.0 + part1 + borrow ≡ x))
          ⊎ ((e.1 ≡ false) × (e.0 + part1 + borrow ≡ x + base)))
unfolding mulsub_end
end_lem borrow part1 x h k = ground arith

-- `n` digits are stored in front of what was behind them in `old`. The number that they stand for
-- and `taken` make up `v` where 1 is returned, and `v` and 2 ^ 32 to the `n` where -1 is.
abbrev pub Takes : ℕ → ℕ → ℕ → List ℕ → Option (List ℕ × Bool) → Type 0
Takes n taken v old r =
    (out : List ℕ) × (ret : Bool) × (r ≡ some (out ++ drop n old, ret))
    × (length out ≡ n)
    × IsDigits out
    × (((ret ≡ true) × (value out + taken ≡ v))
        ⊎ ((ret ≡ false) × (value out + taken ≡ v + base ^ n)))

put-Takes :
    (d n t v t' v' x : ℕ) (old : List ℕ) (r : Option (List ℕ × Bool))
    → d < base
    → d + t' + base * v ≡ v' + base * t
    → Takes n t v old r
    → Takes (suc n) t' v' (x ∷ old) (put_first d r)
unfolding put_first
put-Takes d n t v t' v' x old r h e (out, ret, run, l, digits, outcome) = (
  d ∷ out,
  ret,
  ap (put_first d) run,
  ap suc l,
  (h, digits),
  elim outcome [
    | inl (y, f) ↦ inl (y, omega (arith, f, e))
    | inr (y, f) ↦ inr (y, omega (arith, f, e, pow-suc base n))
  ],
)

mulsub_lem :
    (b p : List ℕ) (m borrow part1 : ℕ)
    → borrow + part1 < base
    → borrow ≤ 2
    → m < base
    → IsDigits b
    → IsDigits p
    → length b < length p
    → Takes
        (suc (length b))
        (value b * m + part1 + borrow)
        (value (take (suc (length b)) p))
        p
        (mulsub_digits borrow part1 b m p)
unfolding mulsub_digits
mulsub_lem b [] m borrow part1 h c k l n o = elim o [ ]
mulsub_lem [] (x ∷ p) m borrow part1 h c k l n o =
    let (d, outcome) = end_lem borrow part1 x h (n.0) in
    (
      (mulsub_end borrow part1 x).0 ∷ [],
      (mulsub_end borrow part1 x).1,
      refl,
      refl,
      (d, tt),
      elim outcome [
        | inl (y, f) ↦ inl (y, omega (arith, f))
        | inr (y, f) ↦ inr (y, omega (arith, f))
      ],
    )
mulsub_lem (y ∷ b) (x ∷ p) m borrow part1 h c k l n o =
    let (low, e) = mpdigmul_lem y m (l.0) k in
    let part = mpdigmul y m in
    let le : part.0 + base * part.1 ≤ 18446744065119617025 =
      omega (arith, e, square_le y m (l.0) k) in
    let (d, fits, small, f) = step_lem borrow part1 x (part.0) (part.1) h c (n.0) low le in
    let s = mulsub_step borrow part1 x part in
    put-Takes (s.0) (suc (length b)) (value b * m + part.1 + s.1) (value (take (suc (length b)) p))
      (value (y ∷ b) * m + part1 + borrow) (value (take (suc (suc (length b))) (x ∷ p))) x p _ d
      (omega (arith, e, f)) (mulsub_lem b p m (s.1) (part.1) fits small k (l.1) (n.1) (omega arith))

-- For digits `b`, a digit `m` and digits `p` of which there are more, the digits stored at `p` are
-- one more than those of `b`, and what is behind them stays. Where 1 is returned, they stand for
-- the number of as many digits of `p` less `m` times the number of `b`; where -1 is returned, for
-- that difference and 2 ^ 32 to the number of these digits.
pub mpvecdigmulsub-value :
    (b : List ℕ) (m : ℕ) (p : List ℕ)
    → m < base
    → IsDigits b
    → IsDigits p
    → length b < length p
    → Takes
        (suc (length b))
        (m * value b)
        (value (take (suc (length b)) p))
        p
        (mpvecdigmulsub b m p)
unfolding mpvecdigmulsub
mpvecdigmulsub-value b m p h k l n =
    let (out, ret, run, len, digits, outcome) =
      mulsub_lem b p m 0 0 (omega arith) (omega arith) h k l n in
    (
      out,
      ret,
      run,
      len,
      digits,
      elim outcome [
        | inl (y, f) ↦ inl (y, omega (arith, f))
        | inr (y, f) ↦ inr (y, omega (arith, f))
      ],
    )
