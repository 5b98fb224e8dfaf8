-- ===== src/Mp.antt =====
-- Vectors of digits of big numbers: libmp/mpvecadd.c, mpvecsub.c and mpvecdigmuladd.c. A vector is
-- the list of its digits, the lowest first, each below 2 ^ 32 (mpdigit of include/lib.h). An array
-- that is written is the list of the digits from the pointer on, and the function gives that list
-- afterwards; `none` is an access behind an array.
pub mod Digits
pub mod Sum
pub mod Product
pub mod Difference
pub mod Division
pub mod Order
mod Tests
use drawterm_android.Base.{
  ℕ, suc, ◌+◌, ◌-◌, ◌*◌, ◌/◌, ◌%◌, ◌^◌, ltb, if◌then◌else◌, Bool, true, false, Option, none, some,
  List, [], ◌∷◌,
}

-- What a digit keeps of a number.
abbrev pub mpdigit : ℕ → ℕ
mpdigit n = n % 2 ^ 32

-- A carry, from the test for it.
abbrev pub flag : Bool → ℕ
flag b = if b then 1 else 0

unfoldable pub put : ℕ → Option (List ℕ) → Option (List ℕ)
put d none = none
put d (some ds) = some (d ∷ ds)

-- The second loop of `mpvecadd`, and what is stored behind it.
unfoldable pub add_carry : ℕ → List ℕ → List ℕ → Option (List ℕ)
add_carry carry a' [] = none
add_carry carry [] (s ∷ sum) = some (carry ∷ sum)
add_carry carry (a ∷ a') (s ∷ sum) =
    let x = mpdigit (a + carry) in put x (add_carry (flag (ltb x carry)) a' sum)

unfoldable pub add_digits : ℕ → List ℕ → List ℕ → List ℕ → Option (List ℕ)
add_digits carry a' [] sum = add_carry carry a' sum
add_digits carry [] (b ∷ b') sum = none
add_digits carry (a ∷ a') (b ∷ b') [] = none
add_digits carry (a ∷ a') (b ∷ b') (s ∷ sum) =
    let x = mpdigit (a + carry) in
    let wrapped = flag (ltb x carry) in
    let total = mpdigit (x + b) in
    put total (add_digits (if ltb total b then wrapped + 1 else wrapped) a' b' sum)

unfoldable pub mpvecadd : List ℕ → List ℕ → List ℕ → Option (List ℕ)
mpvecadd a b sum = add_digits 0 a b sum

-- `x - y` on digits.
abbrev pub minus : ℕ → ℕ → ℕ
minus x y = mpdigit (x + 2 ^ 32 - y)

unfoldable pub sub_borrow : ℕ → List ℕ → List ℕ → Option (List ℕ)
sub_borrow borrow [] diff = some diff
sub_borrow borrow (a ∷ a') [] = none
sub_borrow borrow (a ∷ a') (d ∷ diff) =
    let y = minus a borrow in put y (sub_borrow (flag (ltb a y)) a' diff)

unfoldable pub sub_digits : ℕ → List ℕ → List ℕ → List ℕ → Option (List ℕ)
sub_digits borrow a' [] diff = sub_borrow borrow a' diff
sub_digits borrow [] (b ∷ b') diff = none
sub_digits borrow (a ∷ a') (b ∷ b') [] = none
sub_digits borrow (a ∷ a') (b ∷ b') (d ∷ diff) =
    let y = mpdigit (b + borrow) in
    let wrapped = flag (ltb y borrow) in
    put (minus a y) (sub_digits (if ltb a y then wrapped + 1 else wrapped) a' b' diff)

unfoldable pub mpvecsub : List ℕ → List ℕ → List ℕ → Option (List ℕ)
mpvecsub a b diff = sub_digits 0 a b diff

-- LO and HI.
abbrev pub lo : ℕ → ℕ
lo x = x % 2 ^ 16

abbrev pub hi : ℕ → ℕ
hi x = x / 2 ^ 16

-- `p[0]` and `p[1]`, from the partial products.
unfoldable pub mpdigmul_join : ℕ → ℕ → ℕ → ℕ → ℕ × ℕ
mpdigmul_join p1 p2 p3 p4 =
    let x = mpdigit (p1 * 2 ^ 16) in
    let s = mpdigit (p3 + x) in
    let carry1 = flag (ltb s x) in
    let y = mpdigit (p2 * 2 ^ 16) in
    let t = mpdigit (s + y) in
    let carry2 = if ltb t y then carry1 + 1 else carry1 in
    (t, mpdigit (p4 + (carry2 + hi p1 + hi p2)))

unfoldable pub mpdigmul : ℕ → ℕ → ℕ × ℕ
mpdigmul a b =
    mpdigmul_join (mpdigit (hi a * lo b)) (mpdigit (hi b * lo a)) (mpdigit (lo b * lo a))
      (mpdigit (hi a * hi b))

-- The digit that is stored and the carry after it, where `part` is the product of this round.
unfoldable pub muladd_step : ℕ → ℕ → ℕ → ℕ × ℕ → ℕ × ℕ
muladd_step carry part1 y part =
    let x = mpdigit (part1 + carry) in
    let carry1 = flag (ltb x carry) in
    let s = mpdigit (x + part.0) in
    let carry2 = if ltb s part.0 then carry1 + 1 else carry1 in
    let t = mpdigit (s + y) in (t, if ltb t y then carry2 + 1 else carry2)

unfoldable pub muladd_digits : ℕ → ℕ → List ℕ → ℕ → List ℕ → Option (List ℕ)
muladd_digits carry part1 b' m [] = none
muladd_digits carry part1 [] m (y ∷ p) = some (mpdigit (part1 + carry) ∷ p)
muladd_digits carry part1 (b ∷ b') m (y ∷ p) =
    let part = mpdigmul b m in
    let step = muladd_step carry part1 y part in
    put (step.0) (muladd_digits (step.1) (part.1) b' m p)

unfoldable pub mpvecdigmuladd : List ℕ → ℕ → List ℕ → Option (List ℕ)
mpvecdigmuladd b m p = muladd_digits 0 0 b m p

unfoldable pub mulsub_step : ℕ → ℕ → ℕ → ℕ × ℕ → ℕ × ℕ
mulsub_step borrow part1 x part =
    let y = minus x borrow in
    let borrow1 = flag (ltb x y) in
    let s = mpdigit (part1 + part.0) in
    let borrow2 = if ltb s part.0 then borrow1 + 1 else borrow1 in
    let d = minus y s in (d, if ltb y d then borrow2 + 1 else borrow2)

-- The digit that is stored last, and the number returned: true for 1 and false for -1.
unfoldable pub mulsub_end : ℕ → ℕ → ℕ → ℕ × Bool
mulsub_end borrow part1 x =
    let y = minus (minus x borrow) part1 in (y, if ltb x y then false else true)

unfoldable pub put_first : ℕ → Option (List ℕ × Bool) → Option (List ℕ × Bool)
put_first d none = none
put_first d (some (ds, ret)) = some (d ∷ ds, ret)

unfoldable pub mulsub_digits : ℕ → ℕ → List ℕ → ℕ → List ℕ → Option (List ℕ × Bool)
mulsub_digits borrow part1 b' m [] = none
mulsub_digits borrow part1 [] m (x ∷ p) =
    let last = mulsub_end borrow part1 x in some (last.0 ∷ p, last.1)
mulsub_digits borrow part1 (b ∷ b') m (x ∷ p) =
    let part = mpdigmul b m in
    let step = mulsub_step borrow part1 x part in
    put_first (step.0) (mulsub_digits (step.1) (part.1) b' m p)

-- What is at `p` afterwards, and the number returned.
unfoldable pub mpvecdigmulsub : List ℕ → ℕ → List ℕ → Option (List ℕ × Bool)
mpvecdigmulsub b m p = mulsub_digits 0 0 b m p
