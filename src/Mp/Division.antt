-- ===== src/Mp/Division.antt =====
-- The quotient of two digits by one: libmp/mpdigdiv.c.
pub mod Quotient
use drawterm_android.Base.{
  ℕ, zero, suc, ◌+◌, ◌-◌, ◌*◌, ◌/◌, ◌%◌, ◌^◌, ◌≤◌, ◌<◌, ◌≡◌, ◌∙◌, ◌⊎◌, inl, inr, refl, sym, ap,
  arith, ltb, leb, ◌==◌, ◌||◌, ◌&&◌, if◌then◌else◌, if_true, if_false, Bool, true, false,
  Bool-cases, bit_or_fields, ==→eq,
}
use Prim.Native.Nat.{bit_or}
use native.Mathlib.Nat.{
  pow-suc, one-le-pow, mul_assoc, mul_comm, add-mul, add_comm, add-mul-div_right, div-lt_iff_lt-mul,
}
use drawterm_android.Mp.{mpdigit, minus, flag}

-- What is left of the dividend, and the quotient so far.
pub record Partial : Type 0 where
  pub hi : ℕ
  pub lo : ℕ
  pub q : ℕ

-- The end of one turn of the loop, for `divisor << i` in the digits `x` and `y`.
unfoldable pub subtracted : ℕ → ℕ → ℕ → Partial → Partial
subtracted i x y d = record {
  hi = minus (minus d.hi (flag (ltb d.lo y))) x;
  lo = minus d.lo y;
  q = bit_or d.q (2 ^ i);
}

unfoldable pub div_step : ℕ → ℕ → ℕ → Partial → Partial
div_step i x y d =
    if ltb d.hi x then d else if x == d.hi && ltb d.lo y then d else subtracted i x y d

-- The loop with `n` turns left: `i` is one less, and `x` is halved first.
unfoldable pub div_loop : ℕ → ℕ → ℕ → Partial → Partial
div_loop divisor zero x d = d
div_loop divisor (suc i) x d =
    let half = x / 2 in
    let rest = div_loop divisor i half (div_step i half (mpdigit (divisor * 2 ^ i)) d) in
    if d.hi == 0 then d else rest

unfoldable pub div_long : ℕ → ℕ → ℕ → ℕ
div_long hi lo divisor =
    let d = div_loop divisor 32 divisor (record { hi = hi; lo = lo; q = 0 }) in
    mpdigit (d.q + d.lo / divisor)

-- The divisor `~0`.
unfoldable pub div_ones : ℕ → ℕ → ℕ
div_ones hi lo =
    let sum = mpdigit (lo + hi) in
    let carry = flag (ltb sum hi) in
    let low = mpdigit (sum + carry) in
    let high = mpdigit (hi + carry) in if mpdigit (low + 1) == 0 then mpdigit (high + 1) else high

unfoldable pub mpdigdiv : ℕ → ℕ → ℕ → ℕ
mpdigdiv hi lo divisor =
    if leb divisor hi || divisor == 0
    then 2 ^ 32 - 1
    else if divisor == 2 ^ 32 - 1
    then div_ones hi lo
    else div_long hi lo divisor
