-- ===== src/Enc/Base32/RoundTrip.antt =====
-- enc32 and dec32: what is read back.
use drawterm_android.Base.{
  ℕ, suc, ◌+◌, ◌*◌, ◌/◌, ◌≤◌, ◌<◌, ◌≡◌, ◌∙◌, refl, ap, arith, ltb, leb, if_false, none, some, List,
  [], ◌∷◌, length, All,
}
use Prim.Native.Nat.{bit_and}
use drawterm_android.Enc.Base32.{
  digit0, digit1, digit2, digit3, digit4, digit5, digit6, digit7, digits32, chars32, enc32, byte0,
  byte1, byte2, byte3, byte4, bytes32, values32, dec32,
}
use drawterm_android.Enc.Base32.Digits.{
  digit0_lt, digit1_lt, digit2_lt, digit3_lt, digit4_lt, digit5_lt, digit6_lt, digit7_lt, masks_lt,
  value32-enc32chr, masks, digit0_lem, digit1_lem, digit2_lem, digit3_lem, digit4_lem, digit5_lem,
  digit6_lem, digit7_lem, byte0_lem, byte1_lem, byte2_lem, byte3_lem, byte4_lem,
}

abbrev Bytes : List ℕ → Type 0
Bytes xs = All (λ x. x < 256) xs

-- What the digits of two neighbouring bytes give back.
first_byte : (a b : ℕ) → a < 256 → b < 256 → byte0 (digit0 a) (digit1 a b) ≡ a
first_byte a b h k =
    let e = digit1_lem a b h k in
    byte0_lem a (digit0 a) (digit1 a b) h (digit0_lem a h) (omega (arith, e, k))

second_byte :
    (a b c : ℕ) → a < 256 → b < 256 → c < 256 → byte1 (digit1 a b) (digit2 b) (digit3 b c) ≡ b
second_byte a b c h k l =
    let e = digit1_lem a b h k in
    let f = digit3_lem b c k l in
    byte1_lem b (digit1 a b) (digit2 b) (digit3 b c) k (omega (arith, e, k)) (digit2_lem b)
      (omega (arith, f, l))

third_byte : (b c d : ℕ) → b < 256 → c < 256 → d < 256 → byte2 (digit3 b c) (digit4 c d) ≡ c
third_byte b c d h k l =
    let e = digit3_lem b c h k in
    let f = digit4_lem c d k l in
    byte2_lem c (digit3 b c) (digit4 c d) k (omega (arith, e, k)) (omega (arith, f, l))

fourth_byte :
    (c d e : ℕ) → c < 256 → d < 256 → e < 256 → byte3 (digit4 c d) (digit5 d) (digit6 d e) ≡ d
fourth_byte c d e h k l =
    let f = digit4_lem c d h k in
    let g = digit6_lem d e k l in
    byte3_lem d (digit4 c d) (digit5 d) (digit6 d e) k (omega (arith, f, k)) (digit5_lem d)
      (omega (arith, g, l))

fifth_byte : (d e : ℕ) → d < 256 → e < 256 → byte4 (digit6 d e) (digit7 e) ≡ e
fifth_byte d e h k =
    let f = digit6_lem d e h k in
    byte4_lem e (digit6 d e) (digit7 e) k (omega (arith, f, k)) (digit7_lem e)

-- The same at the end, where a digit lacks its lower part.
first_last : (a : ℕ) → a < 256 → byte0 (digit0 a) (bit_and (a * 4) 28) ≡ a
first_last a h =
    let (m, n, o, p) = masks a h in
    byte0_lem a (digit0 a) (bit_and (a * 4) 28) h (digit0_lem a h) (omega (arith, m))

second_last :
    (a b : ℕ) → a < 256 → b < 256 → byte1 (digit1 a b) (digit2 b) (bit_and (b * 16) 16) ≡ b
second_last a b h k =
    let (m, n, o, p) = masks b k in
    let e = digit1_lem a b h k in
    byte1_lem b (digit1 a b) (digit2 b) (bit_and (b * 16) 16) k (omega (arith, e, k)) (digit2_lem b)
      (omega (arith, n))

third_last : (b c : ℕ) → b < 256 → c < 256 → byte2 (digit3 b c) (bit_and (c * 2) 30) ≡ c
third_last b c h k =
    let (m, n, o, p) = masks c k in
    let e = digit3_lem b c h k in
    byte2_lem c (digit3 b c) (bit_and (c * 2) 30) k (omega (arith, e, k)) (omega (arith, o))

fourth_last : (c d : ℕ) → c < 256 → d < 256 → byte3 (digit4 c d) (digit5 d) (bit_and (d * 8) 24) ≡ d
fourth_last c d h k =
    let (m, n, o, p) = masks d k in
    let f = digit4_lem c d h k in
    byte3_lem d (digit4 c d) (digit5 d) (bit_and (d * 8) 24) k (omega (arith, f, k)) (digit5_lem d)
      (omega (arith, p))

bytes32-digits32 : (xs : List ℕ) → Bytes xs → bytes32 (digits32 xs) ≡ some xs
unfolding bytes32 digits32
bytes32-digits32 [] h = refl
bytes32-digits32 (a ∷ []) (p, h) = rw (first_last a p) refl
bytes32-digits32 (a ∷ b ∷ []) (p, (q, h)) = rw (first_byte a b p q, second_last a b p q) refl
bytes32-digits32 (a ∷ b ∷ c ∷ []) (p, (q, (r, h))) =
    rw (first_byte a b p q, second_byte a b c p q r, third_last b c q r) refl
bytes32-digits32 (a ∷ b ∷ c ∷ d ∷ []) (p, (q, (r, (s, h)))) =
    rw (first_byte a b p q, second_byte a b c p q r, third_byte b c d q r s, fourth_last c d r s)
      refl
bytes32-digits32 (a ∷ b ∷ c ∷ d ∷ e ∷ xs) (p, (q, (r, (s, (t, h))))) =
    rw
      (
        first_byte a b p q,
        second_byte a b c p q r,
        third_byte b c d q r s,
        fourth_byte c d e r s t,
        fifth_byte d e s t,
        bytes32-digits32 xs h,
      )
      refl

digits32-All : (xs : List ℕ) → Bytes xs → All (λ j. j < 32) (digits32 xs)
unfolding digits32
digits32-All [] h = tt
digits32-All (a ∷ []) (p, h) = let (k, l, m, n) = masks_lt a p in (digit0_lt a p, (k, tt))
digits32-All (a ∷ b ∷ []) (p, (q, h)) =
    let (k, l, m, n) = masks_lt b q in (digit0_lt a p, (digit1_lt a b p q, (digit2_lt b, (l, tt))))
digits32-All (a ∷ b ∷ c ∷ []) (p, (q, (r, h))) =
    let (k, l, m, n) = masks_lt c r in
    (digit0_lt a p, (digit1_lt a b p q, (digit2_lt b, (digit3_lt b c q r, (m, tt)))))
digits32-All (a ∷ b ∷ c ∷ d ∷ []) (p, (q, (r, (s, h)))) =
    let (k, l, m, n) = masks_lt d s in
    (
      digit0_lt a p,
      (
        digit1_lt a b p q,
        (digit2_lt b, (digit3_lt b c q r, (digit4_lt c d r s, (digit5_lt d, (n, tt))))),
      ),
    )
digits32-All (a ∷ b ∷ c ∷ d ∷ e ∷ xs) (p, (q, (r, (s, (t, h))))) = (
  digit0_lt a p,
  (
    digit1_lt a b p q,
    (
      digit2_lt b,
      (
        digit3_lt b c q r,
        (digit4_lt c d r s, (digit5_lt d, (digit6_lt d e s t, (digit7_lt e, digits32-All xs h)))),
      ),
    ),
  ),
)

values32-chars32 : (js : List ℕ) → All (λ j. j < 32) js → values32 (chars32 js) ≡ js
values32-chars32 [] h = refl
values32-chars32 (j ∷ js) (p, h) = rw (value32-enc32chr j p, values32-chars32 js h) refl

length-chars32 : (js : List ℕ) → length (chars32 js) ≡ length js
length-chars32 [] = refl
length-chars32 (j ∷ js) = ap suc (length-chars32 js)

-- How many digits there are, as the two functions estimate it.
enough : (xs : List ℕ) → (5 * length (digits32 xs) + 7) / 8 ≤ length xs + 1
unfolding digits32
enough [] = omega arith
enough (a ∷ []) = omega arith
enough (a ∷ b ∷ []) = omega arith
enough (a ∷ b ∷ c ∷ []) = omega arith
enough (a ∷ b ∷ c ∷ d ∷ []) = omega arith
enough (a ∷ b ∷ c ∷ d ∷ e ∷ xs) = omega (arith, enough xs)

fits : (xs : List ℕ) → length (digits32 xs) ≤ (8 * length xs + 4) / 5
unfolding digits32
fits [] = omega arith
fits (a ∷ []) = omega arith
fits (a ∷ b ∷ []) = omega arith
fits (a ∷ b ∷ c ∷ []) = omega arith
fits (a ∷ b ∷ c ∷ d ∷ []) = omega arith
fits (a ∷ b ∷ c ∷ d ∷ e ∷ xs) = omega (arith, fits xs)

-- With room for the characters and the NUL, enc32 codes any bytes and stores no more than there is
-- room for; dec32 reads the same bytes back, given room for them.
pub dec32-enc32 :
    (xs : List ℕ) (ndest lim : ℕ)
    → All (λ x. x < 256) xs
    → (8 * length xs + 4) / 5 < ndest
    → length xs ≤ lim
    → (cs : List ℕ) × (enc32 ndest xs ≡ some cs)
      × (length cs + 1 ≤ ndest)
      × (dec32 lim cs ≡ some xs)
unfolding enc32 dec32
dec32-enc32 xs ndest lim h r l =
    let js = digits32 xs in
    let k = length-chars32 js in
    let e = values32-chars32 js (digits32-All xs h) in
    (
      chars32 js,
      if_false (leb ndest ((8 * length xs + 4) / 5)) none (some (chars32 js)) (ground (arith, r)),
      omega (arith, k, fits xs, r),
      if_false (ltb (lim + 1) ((5 * length (chars32 js) + 7) / 8)) none
            (bytes32 (values32 (chars32 js))) (ground (arith, k, enough xs, l))
          ∙ ap bytes32 e
          ∙ bytes32-digits32 xs h,
    )
