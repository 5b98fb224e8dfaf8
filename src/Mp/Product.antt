-- ===== src/Mp/Product.antt =====
-- `mpvecdigmuladd` adds a multiple of a number.
use native.Mathlib.Nat.{mul-le-mul}
use drawterm_android.Base.{
  ℕ, suc, ◌+◌, ◌*◌, ◌<◌, ◌≤◌, ◌≡◌, ◌∙◌, ap, refl, List, [], ◌∷◌, length, take, arith, ◌∙◌,
}
use drawterm_android.Mp.{
  mpdigit, lo, hi, mpdigmul_join, mpdigmul, muladd_step, muladd_digits, mpvecdigmuladd,
}
use drawterm_android.Mp.Digits.{base, value, IsDigits}
use drawterm_android.Mp.Sum.{Holds, put-Holds}

abbrev half_square : ℕ
half_square = 4294836225

join_lem :
    (p1 p2 p3 p4 : ℕ)
    → p1 ≤ half_square
    → p2 ≤ half_square
    → p3 ≤ half_square
    → p4 ≤ half_square
    → let p = mpdigmul_join p1 p2 p3 p4 in
      (p.0 < base) × (p.0 + base * p.1 ≡ p4 * base + (p1 + p2) * 65536 + p3)
unfolding mpdigmul_join
join_lem p1 p2 p3 p4 h k l m = ground arith

half_product : (a b : ℕ) → a < 65536 → b < 65536 → a * b ≤ half_square
half_product a b h k =
    let l : a ≤ 65535 = omega arith in let m : b ≤ 65535 = omega arith in mul-le-mul l m

whole : (p : ℕ) → p ≤ half_square → mpdigit p ≡ p
whole p h = omega arith

-- The product of two digits, from their halves.
halves_lem :
    (u v w x : ℕ)
    → u < 65536
    → v < 65536
    → w < 65536
    → x < 65536
    → let p =
        mpdigmul_join (mpdigit (u * x)) (mpdigit (w * v)) (mpdigit (x * v)) (mpdigit (u * w)) in
      (p.0 < base) × (p.0 + base * p.1 ≡ (u * 65536 + v) * (w * 65536 + x))
halves_lem u v w x h k l m =
    let b1 = half_product u x h m in
    let b2 = half_product w v l k in
    let b3 = half_product x v m k in
    let b4 = half_product u w h l in
    let (low, e) = join_lem (u * x) (w * v) (x * v) (u * w) b1 b2 b3 b4 in
    rw (whole (u * x) b1, whole (w * v) b2, whole (x * v) b3, whole (u * w) b4)
      (low, omega (arith, e))

pub mpdigmul_lem :
    (a b : ℕ)
    → a < base
    → b < base
    → ((mpdigmul a b).0 < base) × ((mpdigmul a b).0 + base * (mpdigmul a b).1 ≡ a * b)
unfolding mpdigmul
mpdigmul_lem a b h k =
    let (low, e) =
      halves_lem (hi a) (lo a) (hi b) (lo b) (omega arith) (omega arith) (omega arith)
        (omega arith) in
    let ea : hi a * 65536 + lo a ≡ a = omega arith in
    let eb : hi b * 65536 + lo b ≡ b = omega arith in
    (low, e ∙ ap (λ s. s * (hi b * 65536 + lo b)) ea ∙ ap (λ t. a * t) eb)

step_lem :
    (carry part1 y low high t : ℕ)
    → carry + part1 < base
    → y < base
    → low < base
    → low + base * high ≤ 18446744065119617025
    → let s = muladd_step carry part1 y (low, high) in
      (s.0 < base)
      × (s.1 + high < base)
      × (s.0 + base * (s.1 + high) ≡ y + (low + base * high) + part1 + carry)
unfolding muladd_step
step_lem carry part1 y low high t h k l m = ground arith

pub square_le : (a b : ℕ) → a < base → b < base → a * b ≤ 18446744065119617025
square_le a b h k =
    let l : a ≤ 4294967295 = omega arith in let m : b ≤ 4294967295 = omega arith in mul-le-mul l m

muladd_lem :
    (b p : List ℕ) (m carry part1 : ℕ)
    → carry + part1 < base
    → m < base
    → IsDigits b
    → IsDigits p
    → length b < length p
    → Holds
        (suc (length b))
        (value (take (length b) p) + value b * m + part1 + carry)
        p
        (muladd_digits carry part1 b m p)
unfolding muladd_digits
muladd_lem b [] m carry part1 h k l n o = elim o [ ]
muladd_lem [] (y ∷ p) m carry part1 h k l n o =
    (mpdigit (part1 + carry) ∷ [], refl, refl, (omega arith, tt), omega arith)
muladd_lem (x ∷ b) (y ∷ p) m carry part1 h k l n o =
    let (low, e) = mpdigmul_lem x m (l.0) k in
    let part = mpdigmul x m in
    let le : part.0 + base * part.1 ≤ 18446744065119617025 =
      omega (arith, e, square_le x m (l.0) k) in
    let (d, c, f) = step_lem carry part1 y (part.0) (part.1) 0 h (n.0) low le in
    let s = muladd_step carry part1 y part in
    put-Holds (s.0) (suc (length b)) _ _ y p _ d (omega (arith, e, f))
      (muladd_lem b p m (s.1) (part.1) c k (l.1) (n.1) (omega arith))

-- For digits `b`, a digit `m` and digits `p` of which there are more, the digits stored at `p` are
-- one more than those of `b` and stand for the number of as many digits of `p` as `b` has plus `m`
-- times the number of `b`; what is behind them stays.
pub mpvecdigmuladd-value :
    (b : List ℕ) (m : ℕ) (p : List ℕ)
    → m < base
    → IsDigits b
    → IsDigits p
    → length b < length p
    → Holds (suc (length b)) (value (take (length b) p) + m * value b) p (mpvecdigmuladd b m p)
unfolding mpvecdigmuladd
mpvecdigmuladd-value b m p h k l n =
    let (out, run, len, digits, val) = muladd_lem b p m 0 0 (omega arith) h k l n in
    (out, run, len, digits, omega (arith, val))
