-- ===== src/Enc/Base32/Digits.antt =====
-- The digits of five bits, their characters, and the bytes made of them.
use drawterm_android.Base.{
  ℕ, ◌+◌, ◌*◌, ◌/◌, ◌%◌, ◌^◌, ◌<◌, ◌≡◌, ◌∙◌, refl, ap, arith, ◌==◌, ◌&&◌, true, ==→eq, all_below,
  all_below_lem, bit_and_mask, bit_or_fields,
}
use Prim.Native.Nat.{bit_and, bit_or}
use drawterm_android.Enc.{between}
use drawterm_android.Enc.Base32.{
  enc32chr, dec32chr, digit0, digit1, digit2, digit3, digit4, digit5, digit6, digit7, value32,
  byte0, byte1, byte2, byte3, byte4,
}

base32_table : all_below 32 (λ o. value32 (enc32chr o) == o) ≡ true
unfolding all_below value32 dec32chr enc32chr between
base32_table = refl

pub value32-enc32chr : (o : ℕ) → o < 32 → value32 (enc32chr o) ≡ o
value32-enc32chr o h =
    ==→eq _ o (all_below_lem 32 (λ o. value32 (enc32chr o) == o) o base32_table h)

-- The upper parts of digits that two bytes make up.
masks_table :
    all_below 256 (λ a.
      (bit_and (a * 4) 28 == (a % 8) * 4)
      && ((bit_and (a * 16) 16 == (a % 2) * 16)
          && ((bit_and (a * 2) 30 == (a % 16) * 2) && (bit_and (a * 8) 24 == (a % 4) * 8))))
    ≡ true
unfolding all_below
masks_table = refl

pub masks :
    (a : ℕ)
    → a < 256
    → (bit_and (a * 4) 28 ≡ (a % 8) * 4)
      × (bit_and (a * 16) 16 ≡ (a % 2) * 16)
      × (bit_and (a * 2) 30 ≡ (a % 16) * 2)
      × (bit_and (a * 8) 24 ≡ (a % 4) * 8)
masks a h =
    let e =
      all_below_lem 256
        (λ a.
          (bit_and (a * 4) 28 == (a % 8) * 4)
          && ((bit_and (a * 16) 16 == (a % 2) * 16)
              && ((bit_and (a * 2) 30 == (a % 16) * 2) && (bit_and (a * 8) 24 == (a % 4) * 8))))
        a masks_table h in
    (
      ==→eq _ _ (ground (arith, e)),
      ==→eq _ _ (ground (arith, e)),
      ==→eq _ _ (ground (arith, e)),
      ==→eq _ _ (ground (arith, e)),
    )

pub digit0_lem : (a : ℕ) → a < 256 → digit0 a ≡ a / 8
unfolding digit0
digit0_lem a h = let m = bit_and_mask 5 (a / 8) in omega (arith, m, h)

pub digit1_lem : (a b : ℕ) → a < 256 → b < 256 → digit1 a b ≡ (a % 8) * 4 + b / 64
unfolding digit1
digit1_lem a b h k =
    let m : bit_and (b / 64) 3 ≡ b / 64 = bit_and_mask 2 (b / 64) ∙ omega (arith, k) in
    let (n, o, p, q) = masks a h in
    ap (λ t. bit_or t (bit_and (b / 64) 3)) n
    ∙ ap (bit_or ((a % 8) * 4)) m
    ∙ bit_or_fields 2 (a % 8) (b / 64) (omega (arith, k))

pub digit2_lem : (b : ℕ) → digit2 b ≡ (b / 2) % 32
unfolding digit2
digit2_lem b = bit_and_mask 5 (b / 2)

pub digit3_lem : (b c : ℕ) → b < 256 → c < 256 → digit3 b c ≡ (b % 2) * 16 + c / 16
unfolding digit3
digit3_lem b c h k =
    let m : bit_and (c / 16) 15 ≡ c / 16 = bit_and_mask 4 (c / 16) ∙ omega (arith, k) in
    let (n, o, p, q) = masks b h in
    ap (λ t. bit_or t (bit_and (c / 16) 15)) o
    ∙ ap (bit_or ((b % 2) * 16)) m
    ∙ bit_or_fields 4 (b % 2) (c / 16) (omega (arith, k))

pub digit4_lem : (c d : ℕ) → c < 256 → d < 256 → digit4 c d ≡ (c % 16) * 2 + d / 128
unfolding digit4
digit4_lem c d h k =
    let m : bit_and (d / 128) 1 ≡ d / 128 = bit_and_mask 1 (d / 128) ∙ omega (arith, k) in
    let (n, o, p, q) = masks c h in
    ap (λ t. bit_or t (bit_and (d / 128) 1)) p
    ∙ ap (bit_or ((c % 16) * 2)) m
    ∙ bit_or_fields 1 (c % 16) (d / 128) (omega (arith, k))

pub digit5_lem : (d : ℕ) → digit5 d ≡ (d / 4) % 32
unfolding digit5
digit5_lem d = bit_and_mask 5 (d / 4)

pub digit6_lem : (d e : ℕ) → d < 256 → e < 256 → digit6 d e ≡ (d % 4) * 8 + e / 32
unfolding digit6
digit6_lem d e h k =
    let m : bit_and (e / 32) 7 ≡ e / 32 = bit_and_mask 3 (e / 32) ∙ omega (arith, k) in
    let (n, o, p, q) = masks d h in
    ap (λ t. bit_or t (bit_and (e / 32) 7)) q
    ∙ ap (bit_or ((d % 4) * 8)) m
    ∙ bit_or_fields 3 (d % 4) (e / 32) (omega (arith, k))

pub digit7_lem : (e : ℕ) → digit7 e ≡ e % 32
unfolding digit7
digit7_lem e = bit_and_mask 5 e

-- Each byte from the digits that hold its parts.
pub byte0_lem : (a u0 u1 : ℕ) → a < 256 → u0 ≡ a / 8 → u1 / 4 ≡ a % 8 → byte0 u0 u1 ≡ a
unfolding byte0
byte0_lem a u0 u1 h e f =
    let m : bit_and (u1 / 4) 7 ≡ a % 8 = bit_and_mask 3 (u1 / 4) ∙ omega (arith, f) in
    let o = bit_or_fields 3 u0 (a % 8) (omega arith) in
    ap (λ t. bit_or (u0 * 8) t % 256) m ∙ ap (λ t. t % 256) o ∙ omega (arith, e, h)

pub byte1_lem :
    (b u1 u2 u3 : ℕ)
    → b < 256
    → u1 % 4 ≡ b / 64
    → u2 ≡ (b / 2) % 32
    → u3 / 16 ≡ b % 2
    → byte1 u1 u2 u3 ≡ b
unfolding byte1
byte1_lem b u1 u2 u3 h e f g =
    let m : bit_and u1 3 ≡ b / 64 = bit_and_mask 2 u1 ∙ e in
    let n : bit_and (u3 / 16) 1 ≡ b % 2 = bit_and_mask 1 (u3 / 16) ∙ omega (arith, g) in
    let o = bit_or_fields 6 (b / 64) (u2 * 2) (omega (arith, f)) in
    let v : (b / 64) * 2 ^ 6 + u2 * 2 ≡ (b / 2) * 2 = omega (arith, f, h) in
    let w = bit_or_fields 1 (b / 2) (b % 2) (omega arith) in rw (m, n, o, v, w) (omega (arith, h))

pub byte2_lem : (c u3 u4 : ℕ) → c < 256 → u3 % 16 ≡ c / 16 → u4 / 2 ≡ c % 16 → byte2 u3 u4 ≡ c
unfolding byte2
byte2_lem c u3 u4 h e f =
    let m : bit_and u3 15 ≡ c / 16 = bit_and_mask 4 u3 ∙ e in
    let n : bit_and (u4 / 2) 15 ≡ c % 16 = bit_and_mask 4 (u4 / 2) ∙ omega (arith, f) in
    let w = bit_or_fields 4 (c / 16) (c % 16) (omega arith) in rw (m, n, w) (omega (arith, h))

pub byte3_lem :
    (d u4 u5 u6 : ℕ)
    → d < 256
    → u4 % 2 ≡ d / 128
    → u5 ≡ (d / 4) % 32
    → u6 / 8 ≡ d % 4
    → byte3 u4 u5 u6 ≡ d
unfolding byte3
byte3_lem d u4 u5 u6 h e f g =
    let m : bit_and u4 1 ≡ d / 128 = bit_and_mask 1 u4 ∙ e in
    let n : bit_and (u6 / 8) 3 ≡ d % 4 = bit_and_mask 2 (u6 / 8) ∙ omega (arith, g) in
    let o = bit_or_fields 7 (d / 128) (u5 * 4) (omega (arith, f)) in
    let v : (d / 128) * 2 ^ 7 + u5 * 4 ≡ (d / 4) * 4 = omega (arith, f, h) in
    let w = bit_or_fields 2 (d / 4) (d % 4) (omega arith) in rw (m, n, o, v, w) (omega (arith, h))

pub byte4_lem : (e u6 u7 : ℕ) → e < 256 → u6 % 8 ≡ e / 32 → u7 ≡ e % 32 → byte4 u6 u7 ≡ e
unfolding byte4
byte4_lem e u6 u7 h f g =
    let m : bit_and u6 7 ≡ e / 32 = bit_and_mask 3 u6 ∙ f in
    let w = bit_or_fields 5 (e / 32) u7 (omega (arith, g)) in rw (m, w) (omega (arith, g, h))

-- Each digit has five bits.
pub digit0_lt : (a : ℕ) → a < 256 → digit0 a < 32
digit0_lt a h = omega (arith, digit0_lem a h, h)

pub digit1_lt : (a b : ℕ) → a < 256 → b < 256 → digit1 a b < 32
digit1_lt a b h k = omega (arith, digit1_lem a b h k, k)

pub digit2_lt : (b : ℕ) → digit2 b < 32
digit2_lt b = omega (arith, digit2_lem b)

pub digit3_lt : (b c : ℕ) → b < 256 → c < 256 → digit3 b c < 32
digit3_lt b c h k = omega (arith, digit3_lem b c h k, k)

pub digit4_lt : (c d : ℕ) → c < 256 → d < 256 → digit4 c d < 32
digit4_lt c d h k = omega (arith, digit4_lem c d h k, k)

pub digit5_lt : (d : ℕ) → digit5 d < 32
digit5_lt d = omega (arith, digit5_lem d)

pub digit6_lt : (d e : ℕ) → d < 256 → e < 256 → digit6 d e < 32
digit6_lt d e h k = omega (arith, digit6_lem d e h k, k)

pub digit7_lt : (e : ℕ) → digit7 e < 32
digit7_lt e = omega (arith, digit7_lem e)

pub masks_lt :
    (a : ℕ)
    → a < 256
    → (bit_and (a * 4) 28 < 32)
      × (bit_and (a * 16) 16 < 32)
      × (bit_and (a * 2) 30 < 32)
      × (bit_and (a * 8) 24 < 32)
masks_lt a h =
    let (m, n, o, p) = masks a h in
    (omega (arith, m), omega (arith, n), omega (arith, o), omega (arith, p))
