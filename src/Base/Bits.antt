-- ===== src/Base/Bits.antt =====
-- `|` of separate fields and `&` with a mask of low ones, as sums and remainders, at every width.
use Prim.Native.Nat.{ℕ, zero, suc, ◌+◌, ◌-◌, ◌*◌, ◌/◌, ◌%◌, ◌^◌, ◌≤◌, ◌<◌, min, max}
use Prim.Native.Nat.{bit_and, bit_or, digits, bitwise, bit_and-bitwise, bit_or-bitwise}
use mathlib.Core.Path.{◌≡◌, refl, ap, sym}
use mathlib.Core.Bool.{Bool, true, ◌&&◌}
use native.Mathlib.Omega.{arith}
use native.Mathlib.Nat.{pow-suc, one-le-pow, mul-one, add-zero}

-- The native operations are a recursion on binary digits, whose fuel may be any that suffices.
module _ (keep : ℕ → ℕ) (op : ℕ → ℕ → ℕ) where
  enough : (n a b m : ℕ) → a ≤ n → a ≤ m → digits keep op n a b ≡ digits keep op m a b
  enough zero zero b zero h k = refl
  enough zero zero b (suc m) h k = refl
  enough zero (suc a) b m h k = elim h [ ]
  enough (suc n) zero b zero h k = refl
  enough (suc n) zero b (suc m) h k = refl
  enough (suc n) (suc a) b zero h k = elim k [ ]
  enough (suc n) (suc a) b (suc m) h k =
      let half = suc a / 2 in rw (enough n half (b / 2) m (omega arith) (omega arith))

  lowest :
      (a b : ℕ)
      → bitwise keep op (suc a) b ≡ bitwise keep op (suc a / 2) (b / 2) * 2 + op (suc a % 2) (b % 2)
  lowest a b =
      let half = suc a / 2 in omega (arith, enough a half (b / 2) half (omega arith) (omega arith))

or_lowest : (a b : ℕ) → bit_or a b ≡ bit_or (a / 2) (b / 2) * 2 + max (a % 2) (b % 2)
or_lowest zero b = omega (arith, bit_or-bitwise 0 b, bit_or-bitwise 0 (b / 2))
or_lowest (suc a) b =
    omega
      (arith, bit_or-bitwise (suc a) b, bit_or-bitwise (suc a / 2) (b / 2), lowest (λ t. t) max a b)

and_lowest : (a b : ℕ) → bit_and a b ≡ bit_and (a / 2) (b / 2) * 2 + min (a % 2) (b % 2)
and_lowest zero b = omega (arith, bit_and-bitwise 0 b, bit_and-bitwise 0 (b / 2))
and_lowest (suc a) b =
    omega (
      arith,
      bit_and-bitwise (suc a) b,
      bit_and-bitwise (suc a / 2) (b / 2),
      lowest (λ t. 0) min a b,
    )

or_zero_below : (n a : ℕ) → a ≤ n → bit_or a 0 ≡ a
or_zero_below n zero h = omega (arith, bit_or-bitwise 0 0)
or_zero_below zero (suc a) h = elim h [ ]
or_zero_below (suc n) (suc a) h =
    omega (arith, or_lowest (suc a) 0, or_zero_below n (suc a / 2) (omega arith))

and_zero_below : (n a : ℕ) → a ≤ n → bit_and a 0 ≡ 0
and_zero_below n zero h = omega (arith, bit_and-bitwise 0 0)
and_zero_below zero (suc a) h = elim h [ ]
and_zero_below (suc n) (suc a) h =
    omega (arith, and_lowest (suc a) 0, and_zero_below n (suc a / 2) (omega arith))

double : (q k : ℕ) → q * 2 ^ suc k ≡ 2 * (q * 2 ^ k)
double q k = omega (arith, ap (λ (t : ℕ). q * t) (pow-suc 2 k))

-- A field of `k` bits behind a number that is shifted over it.
pub bit_or_fields : (k q r : ℕ) → r < 2 ^ k → bit_or (q * 2 ^ k) r ≡ q * 2 ^ k + r
bit_or_fields zero q r h = ground (arith, or_zero_below q q)
bit_or_fields (suc k) q r h = ground (
  arith,
  pow-suc 2 k,
  double q k,
  or_lowest (q * 2 ^ suc k) r,
  bit_or_fields k q (r / 2) (omega (arith, pow-suc 2 k)),
)

-- Fields above `r` are joined on their own.
pub bit_or_above :
    (k q m r : ℕ) → r < 2 ^ k → bit_or (q * 2 ^ k) (m * 2 ^ k + r) ≡ bit_or q m * 2 ^ k + r
bit_or_above zero q m r h =
    let z : r ≡ 0 = omega arith in
    rw (z, mul-one q, mul-one m, add-zero m, add-zero (bit_or q m * 1)) (sym (mul-one (bit_or q m)))
bit_or_above (suc k) q m r h = ground (
  arith,
  pow-suc 2 k,
  double q k,
  double m k,
  double (bit_or q m) k,
  or_lowest (q * 2 ^ suc k) (m * 2 ^ suc k + r),
  bit_or_above k q m (r / 2) (omega (arith, pow-suc 2 k)),
)

-- All ones absorb what has no more digits.
pub bit_or_ones : (k q : ℕ) → q < 2 ^ k → bit_or q (2 ^ k - 1) ≡ 2 ^ k - 1
bit_or_ones zero q h = ground (arith, or_zero_below q q)
bit_or_ones (suc k) q h = ground (
  arith,
  pow-suc 2 k,
  one-le-pow k 2,
  or_lowest q (2 ^ suc k - 1),
  bit_or_ones k (q / 2) (omega (arith, pow-suc 2 k)),
)

masked : (k q r : ℕ) → r < 2 ^ k → bit_and (q * 2 ^ k + r) (2 ^ k - 1) ≡ r
masked zero q r h = ground (arith, and_zero_below q q)
masked (suc k) q r h = ground (
  arith,
  pow-suc 2 k,
  one-le-pow k 2,
  double q k,
  and_lowest (q * 2 ^ suc k + r) (2 ^ suc k - 1),
  masked k q (r / 2) (omega (arith, pow-suc 2 k)),
)

pub bit_and_mask : (k a : ℕ) → bit_and a (2 ^ k - 1) ≡ a % 2 ^ k
bit_and_mask k a = ground (arith, one-le-pow k 2, masked k (a / 2 ^ k) (a % 2 ^ k))

-- A check of every number below a bound, by evaluation.
unfoldable pub all_below : ℕ → (ℕ → Bool) → Bool
all_below zero p = true
all_below (suc n) p = p n && all_below n p

pub all_below_lem : (n : ℕ) (p : ℕ → Bool) (x : ℕ) → all_below n p ≡ true → x < n → p x ≡ true
unfolding all_below
all_below_lem zero p x h lt = elim lt [ ]
all_below_lem (suc n) p x h lt = ground (arith, all_below_lem n p x)
