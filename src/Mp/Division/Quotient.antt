-- ===== src/Mp/Division/Quotient.antt =====
-- mpdigdiv divides: what its loop keeps, turn by turn.
use drawterm_android.Base.{
  ℕ, zero, suc, ◌+◌, ◌-◌, ◌*◌, ◌/◌, ◌%◌, ◌^◌, ◌≤◌, ◌<◌, ◌≡◌, ◌∙◌, inl, inr, refl, sym, ap, arith,
  ltb, leb, ◌==◌, ◌||◌, ◌&&◌, if◌then◌else◌, true, false, Bool-cases, bit_or_fields, ==→eq,
}
use Prim.Native.Nat.{bit_or}
use native.Mathlib.Nat.{
  pow-suc, one-le-pow, mul_assoc, mul_comm, add-mul, add_comm, add-mul-div_right, div-lt_iff_lt-mul,
}
use drawterm_android.Mp.{mpdigit, minus, flag}
use drawterm_android.Mp.Division.{
  Partial, subtracted, div_step, div_loop, div_long, div_ones, mpdigdiv,
}

div_ones_lem :
    (hi lo : ℕ) → hi < 2 ^ 32 - 1 → lo < 2 ^ 32 → div_ones hi lo ≡ (hi * 2 ^ 32 + lo) / (2 ^ 32 - 1)
unfolding div_ones
div_ones_lem hi lo h l = ground (arith, h, l)

-- Before a turn, for the dividend `n`, with `i` turns left.
record IsPartial (divisor n i : ℕ) (d : Partial) : Type 0 where
  value : (d.hi * 2 ^ 32 + d.lo) + d.q * divisor ≡ n
  below : d.hi * 2 ^ 32 + d.lo < divisor * 2 ^ i
  high_digit : d.hi < 2 ^ 32
  low_digit : d.lo < 2 ^ 32
  bits : (m : ℕ) × (d.q ≡ m * 2 ^ i)

turn_doubles : (divisor i : ℕ) → divisor * 2 ^ suc i ≡ 2 * (divisor * 2 ^ i)
turn_doubles divisor i = omega (arith, ap (λ (t : ℕ). divisor * t) (pow-suc 2 i))

shifted : (m i : ℕ) → m * 2 ^ suc i ≡ (2 * m) * 2 ^ i
shifted m i = turn_doubles m i ∙ sym (mul_assoc 2 m (2 ^ i))

odd : (m k : ℕ) → (2 * m) * k + k ≡ (2 * m + 1) * k
odd m k =
    let e : 1 * k ≡ k = omega arith in sym (add-mul (2 * m) 1 k ∙ ap (λ (u : ℕ). (2 * m) * k + u) e)

distributed : (q t divisor i : ℕ) → t ≡ divisor * 2 ^ i → (q + 2 ^ i) * divisor ≡ q * divisor + t
distributed q t divisor i e =
    add-mul q (2 ^ i) divisor ∙ ap (λ (u : ℕ). q * divisor + u) (mul_comm (2 ^ i) divisor ∙ sym e)

subtraction :
    (hi lo t : ℕ)
    → hi < 2 ^ 32
    → lo < 2 ^ 32
    → t ≤ hi * 2 ^ 32 + lo
    → (minus (minus hi (flag (ltb lo (t % 2 ^ 32)))) (t / 2 ^ 32) * 2 ^ 32 + minus lo (t % 2 ^ 32))
        + t
      ≡ hi * 2 ^ 32 + lo
subtraction hi lo t h l e = ground (arith, h, l, e)

-- A turn that subtracts, and one that does not.
subtracted-IsPartial :
    (divisor n i : ℕ) (d : Partial)
    → IsPartial divisor n (suc i) d
    → divisor * 2 ^ i ≤ d.hi * 2 ^ 32 + d.lo
    → IsPartial divisor n i
        (subtracted i ((divisor * 2 ^ i) / 2 ^ 32) ((divisor * 2 ^ i) % 2 ^ 32) d)
unfolding subtracted
subtracted-IsPartial divisor n i d p e =
    let t = divisor * 2 ^ i in
    let s = subtraction d.hi d.lo t p.high_digit p.low_digit e in
    let w = turn_doubles divisor i in
    let (m, b) = p.bits in
    let v : m * 2 ^ suc i ≡ (2 * m) * 2 ^ i = shifted m i in
    let o : bit_or d.q (2 ^ i) ≡ d.q + 2 ^ i =
      ap (λ (u : ℕ). bit_or u (2 ^ i)) b
      ∙ bit_or_fields (suc i) m (2 ^ i) (omega (arith, pow-suc 2 i, one-le-pow i 2))
      ∙ ap (λ (u : ℕ). u + 2 ^ i) (sym b) in
    let a : (d.q + 2 ^ i) * divisor ≡ d.q * divisor + t = distributed d.q t divisor i refl in
    record {
      value = omega (arith, p.value, s, ap (λ (u : ℕ). u * divisor) o, a);
      below = omega (arith, p.below, s, w);
      high_digit = omega arith;
      low_digit = omega arith;
      bits = (2 * m + 1, o ∙ ap (λ (u : ℕ). u + 2 ^ i) (b ∙ v) ∙ odd m (2 ^ i));
    }

kept-IsPartial :
    (divisor n i : ℕ) (d : Partial)
    → IsPartial divisor n (suc i) d
    → d.hi * 2 ^ 32 + d.lo < divisor * 2 ^ i
    → IsPartial divisor n i d
kept-IsPartial divisor n i d p e =
    let (m, b) = p.bits in
    record {
      value = p.value;
      below = e;
      high_digit = p.high_digit;
      low_digit = p.low_digit;
      bits = (2 * m, b ∙ shifted m i);
    }

div_step-IsPartial :
    (divisor n i : ℕ) (d : Partial)
    → IsPartial divisor n (suc i) d
    → IsPartial divisor n i (div_step i ((divisor * 2 ^ i) / 2 ^ 32) ((divisor * 2 ^ i) % 2 ^ 32) d)
unfolding div_step
div_step-IsPartial divisor n i d p =
    let t = divisor * 2 ^ i in
    elim (Bool-cases (ltb d.hi (t / 2 ^ 32))) [
      | inl e ↦ rw e (kept-IsPartial divisor n i d p (ground (arith, e, p.low_digit)))
      | inr e ↦ elim (Bool-cases (t / 2 ^ 32 == d.hi && ltb d.lo (t % 2 ^ 32))) [
        | inl f ↦ rw (e, f) (kept-IsPartial divisor n i d p (ground (arith, e, f, p.low_digit)))
        | inr f ↦
            rw (e, f) (subtracted-IsPartial divisor n i d p (ground (arith, e, f, p.low_digit)))
      ]
    ]

-- What holds behind the loop.
record IsDivided (divisor n : ℕ) (d : Partial) : Type 0 where
  small : d.hi ≡ 0
  rest : d.lo + d.q * divisor ≡ n

no_high :
    (divisor n : ℕ) (d : Partial) (i : ℕ)
    → IsPartial divisor n i d
    → d.hi ≡ 0
    → IsDivided divisor n d
no_high divisor n d i p e = record { small = e; rest = omega (arith, p.value, e) }

div_loop-IsDivided :
    (divisor n i x : ℕ) (d : Partial)
    → divisor < 2 ^ 32
    → x ≡ (divisor * 2 ^ i) / 2 ^ 32
    → IsPartial divisor n i d
    → IsDivided divisor n (div_loop divisor i x d)
unfolding div_loop
div_loop-IsDivided divisor n zero x d h e p = no_high divisor n d 0 p (omega (arith, p.below, h))
div_loop-IsDivided divisor n (suc i) x d h e p =
    let t = divisor * 2 ^ i in
    let w = turn_doubles divisor i in
    let f : x / 2 ≡ t / 2 ^ 32 = omega (arith, e, w) in
    let half = x / 2 in
    let s : IsPartial divisor n i (div_step i half (mpdigit t) d) =
      rw f (div_step-IsPartial divisor n i d p) in
    let rest = div_loop-IsDivided divisor n i half (div_step i half (mpdigit t) d) h f s in
    elim (Bool-cases (d.hi == 0)) [
      | inl z ↦ rw z (no_high divisor n d (suc i) p (ground (arith, z)))
      | inr z ↦ rw z rest
    ]

div_long_lem :
    (hi lo divisor : ℕ)
    → hi < divisor
    → lo < 2 ^ 32
    → divisor < 2 ^ 32
    → div_long hi lo divisor ≡ (hi * 2 ^ 32 + lo) / divisor
unfolding div_long
div_long_lem hi lo divisor h l k =
    let n = hi * 2 ^ 32 + lo in
    let start : Partial = record { hi = hi; lo = lo; q = 0 } in
    let p : IsPartial divisor n 32 start = record {
      value = omega arith;
      below = omega (arith, h, l);
      high_digit = omega (arith, h, k);
      low_digit = l;
      bits = (0, refl);
    } in
    let d = div_loop divisor 32 divisor start in
    let r = div_loop-IsDivided divisor n 32 divisor start k (omega arith) p in
    let pos : 0 < divisor = omega (arith, h) in
    let e = add-mul-div_right d.lo d.q pos in
    let f : d.q + d.lo / divisor ≡ n / divisor =
      add_comm d.q (d.lo / divisor) ∙ sym e ∙ ap (λ (u : ℕ). u / divisor) r.rest in
    let b : n / divisor < 2 ^ 32 = (div-lt_iff_lt-mul pos).1 (omega (arith, h, l)) in
    ap mpdigit f ∙ omega (arith, b)

-- mpdigdiv divides the number that two digits make up, where the quotient is a digit; otherwise, and
-- for the divisor 0, it gives the highest digit.
pub mpdigdiv_lem :
    (hi lo divisor : ℕ)
    → hi < 2 ^ 32
    → lo < 2 ^ 32
    → divisor < 2 ^ 32
    → mpdigdiv hi lo divisor ≡ (if ltb hi divisor then (hi * 2 ^ 32 + lo) / divisor else 2 ^ 32 - 1)
unfolding mpdigdiv
mpdigdiv_lem hi lo divisor h l k = elim (Bool-cases (ltb hi divisor)) [
  | inr e ↦ let a : (leb divisor hi || divisor == 0) ≡ true = ground (arith, e) in rw (a, e) refl
  | inl e ↦
      let a : (leb divisor hi || divisor == 0) ≡ false = ground (arith, e) in
      elim (Bool-cases (divisor == 2 ^ 32 - 1)) [
        | inl f ↦
            let g = ==→eq divisor (2 ^ 32 - 1) f in
            rw (a, e, f)
              (div_ones_lem hi lo (ground (arith, e, g)) l
                ∙ ap (λ (u : ℕ). (hi * 2 ^ 32 + lo) / u) (sym g))
        | inr f ↦ rw (a, e, f) (div_long_lem hi lo divisor (ground (arith, e)) l k)
      ]
]
