-- ===== src/Rune/Bits.antt =====
-- The bit operations of rune.c on bytes and runes, as arithmetic.
use Prim.Native.Nat.{bit_and, bit_or, bit_xor, ℕ}
use drawterm_android.Base.{
  refl, all_below, ℕ, ◌+◌, ◌<◌, ◌≡◌, ◌≤◌, bit_or_fields, false, ◌%◌, ◌*◌, ◌-◌, ◌==◌, ap, arith,
  true, ◌^◌, all_below_lem, bit_and_mask, ltb, ◌||◌, ◌∙◌, leb, ◌&&◌, ==→eq,
}
use drawterm_android.Rune.{tx, t2, t3, t4, maskx, rune2, rune3, rune4, shl6, is_bad}

is_bad_table :
    all_below 256 (λ b. elim (is_bad (bit_xor b tx)) [
      | true ↦ ltb b 128 || leb 192 b
      | false ↦ leb 128 b && ltb b 192
    ])
    ≡ true
unfolding all_below is_bad
is_bad_table = refl

xor_table : all_below 64 (λ m. bit_xor (m + 128) tx == m) ≡ true
unfolding all_below
xor_table = refl

-- A byte is a continuation byte where it has the form 10xxxxxx.
pub is_bad_byte : (b : ℕ) → b < 256 → is_bad (bit_xor b tx) ≡ false → (128 ≤ b) × (b < 192)
is_bad_byte b h e = ground (arith, all_below_lem 256 _ b is_bad_table h)

good_table : all_below 64 (λ m. elim (is_bad m) [ true ↦ false | false ↦ true ]) ≡ true
unfolding all_below is_bad
good_table = refl

xor_lem : (m : ℕ) → m < 64 → bit_xor (m + 128) tx ≡ m
xor_lem m h = ==→eq _ m (all_below_lem 64 _ m xor_table h)

pub is_good : (m : ℕ) → m < 64 → (bit_xor (128 + m) tx ≡ m) × (is_bad m ≡ false)
is_good m h =
    let e : 128 + m ≡ m + 128 = omega arith in
    (ap (λ t. bit_xor t tx) e ∙ xor_lem m h, ground (arith, all_below_lem 64 _ m good_table h))

pub xor_byte : (b : ℕ) → 128 ≤ b → b < 192 → bit_xor b tx ≡ b - 128
xor_byte b h k =
    let e : b ≡ (b - 128) + 128 = omega arith in
    ap (λ t. bit_xor t tx) e ∙ xor_lem (b - 128) (omega arith)

pub join2 : (c c1 : ℕ) → c1 < 64 → bit_and (bit_or (shl6 c) c1) rune2 ≡ (c * 64 + c1) % 2 ^ 11
join2 c c1 h =
    bit_and_mask 11 (bit_or (c * 2 ^ 6) c1) ∙ ap (λ t. t % 2 ^ 11) (bit_or_fields 6 c c1 h)

pub join3 :
    (c c1 c2 : ℕ)
    → c1 < 64
    → c2 < 64
    → bit_and (bit_or (shl6 (bit_or (shl6 c) c1)) c2) rune3 ≡ ((c * 64 + c1) * 64 + c2) % 2 ^ 16
join3 c c1 c2 h k =
    bit_and_mask 16 (bit_or (shl6 (bit_or (shl6 c) c1)) c2)
    ∙ ap (λ t. t % 2 ^ 16)
        (bit_or_fields 6 (bit_or (shl6 c) c1) c2 k ∙ ap (λ t. t * 64 + c2) (bit_or_fields 6 c c1 h))

pub join4 :
    (c c1 c2 c3 : ℕ)
    → c1 < 64
    → c2 < 64
    → c3 < 64
    → bit_and (bit_or (shl6 (bit_or (shl6 (bit_or (shl6 c) c1)) c2)) c3) rune4
      ≡ (((c * 64 + c1) * 64 + c2) * 64 + c3) % 2 ^ 21
join4 c c1 c2 c3 h k l =
    bit_and_mask 21 (bit_or (shl6 (bit_or (shl6 (bit_or (shl6 c) c1)) c2)) c3)
    ∙ ap (λ t. t % 2 ^ 21)
        (bit_or_fields 6 (bit_or (shl6 (bit_or (shl6 c) c1)) c2) c3 l
          ∙ ap (λ t. t * 64 + c3)
              (bit_or_fields 6 (bit_or (shl6 c) c1) c2 k
                ∙ ap (λ t. t * 64 + c2) (bit_or_fields 6 c c1 h)))

pub head2 : (q : ℕ) → q < 32 → bit_or t2 q ≡ 192 + q
head2 q h = bit_or_fields 5 6 q h

pub head3 : (q : ℕ) → q < 16 → bit_or t3 q ≡ 224 + q
head3 q h = bit_or_fields 4 14 q h

pub head4 : (q : ℕ) → q < 8 → bit_or t4 q ≡ 240 + q
head4 q h = bit_or_fields 3 30 q h

pub next_byte : (x : ℕ) → bit_or tx (bit_and x maskx) ≡ 128 + x % 64
next_byte x = ap (λ t. bit_or tx t) (bit_and_mask 6 x) ∙ bit_or_fields 6 2 (x % 64) (omega arith)
