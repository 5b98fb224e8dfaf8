-- ===== src/Fd/Count.antt =====
-- How many entries of a table hold a channel.
use drawterm_android.Base.{
  ℕ, zero, suc, ◌+◌, ◌<◌, ◌≡◌, refl, arith, ◌==◌, ◌++◌, if◌then◌else◌, Option, none, some, List, [],
  ◌∷◌, length, set, replicate,
}
use drawterm_android.Fd.{entry}

unfoldable pub is : ℕ → Option ℕ → ℕ
is c none = 0
is c (some d) = if c == d then 1 else 0

unfoldable pub uses : ℕ → List (Option ℕ) → ℕ
uses c [] = 0
uses c (o ∷ os) = is c o + uses c os

pub uses-set :
    (c : ℕ) (os : List (Option ℕ)) (i : ℕ) (o : Option ℕ)
    → i < length os
    → uses c (set os i o) + is c (entry os i) ≡ uses c os + is c o
unfolding uses entry
uses-set c [] i o h = elim h [ ]
uses-set c (x ∷ os) zero o h = omega arith
uses-set c (x ∷ os) (suc i) o h = omega (arith, uses-set c os i o (omega arith))

pub uses-replicate : (c n : ℕ) → uses c (replicate n none) ≡ 0
unfolding uses is
uses-replicate c zero = refl
uses-replicate c (suc n) = omega (arith, uses-replicate c n)

pub uses-append : (c : ℕ) (xs ys : List (Option ℕ)) → uses c (xs ++ ys) ≡ uses c xs + uses c ys
unfolding uses
uses-append c [] ys = omega arith
uses-append c (x ∷ xs) ys = omega (arith, uses-append c xs ys)

pub uses-entry : (c : ℕ) (os : List (Option ℕ)) (i : ℕ) → entry os i ≡ some c → 0 < uses c os
unfolding uses is entry
uses-entry c [] i e = ground (arith, e)
uses-entry c (x ∷ os) zero e = rw (e, is) (ground arith)
uses-entry c (x ∷ os) (suc i) e = omega (arith, uses-entry c os i e)
