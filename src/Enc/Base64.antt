-- ===== src/Enc/Base64.antt =====
-- enc64 and dec64: groups of four characters in the loop of dec64.
pub mod RoundTrip
use drawterm_android.Base.{
  ℕ, zero, suc, ◌+◌, ◌-◌, ◌*◌, ◌/◌, ◌%◌, ◌^◌, ◌≤◌, ◌<◌, ◌≡◌, ◌∙◌, refl, sym, ap, arith, ltb, leb,
  ◌==◌, Bool, true, false, Bool-cases, List, [], ◌∷◌, length, All, bit_and_mask, bit_or_fields,
}
use Prim.Native.Nat.{bit_and, bit_or}
use drawterm_android.Enc.{
  enc64chr, dec64chr, bits24, digit64, enc64, dec64_end, dec64_loop, dec64, negative, word,
}
use drawterm_android.Enc.Chars.{dec64chr-enc64chr, pad_negative}

-- A digit in each of the four places.
place0 :
    (x b : ℕ) (xs : List ℕ) (room : ℕ)
    → dec64chr x < 64
    → dec64_loop (x ∷ xs) b 0 room ≡ dec64_loop xs (dec64chr x * 2 ^ 18) 1 room
unfolding dec64_loop
place0 x b xs room h =
    let n : negative (dec64chr x) ≡ false = ground (arith, h) in
    let m : (dec64chr x * 2 ^ 18) % word ≡ dec64chr x * 2 ^ 18 = omega (arith, h) in
    rw (dec64_loop, n, m) refl

place1 :
    (x b : ℕ) (xs : List ℕ) (room : ℕ)
    → dec64chr x < 64
    → dec64_loop (x ∷ xs) (b * 2 ^ 18) 1 room
      ≡ dec64_loop xs ((b * 64 + dec64chr x) * 2 ^ 12) 2 room
unfolding dec64_loop
place1 x b xs room h =
    let n : negative (dec64chr x) ≡ false = ground (arith, h) in
    let m : (dec64chr x * 2 ^ 12) % word ≡ dec64chr x * 2 ^ 12 = omega (arith, h) in
    let o = bit_or_fields 18 b (dec64chr x * 2 ^ 12) (omega (arith, h)) in
    let p : b * 2 ^ 18 + dec64chr x * 2 ^ 12 ≡ (b * 64 + dec64chr x) * 2 ^ 12 = omega arith in
    rw (dec64_loop, n, m, o, p) refl

place2 :
    (x b : ℕ) (xs : List ℕ) (room : ℕ)
    → dec64chr x < 64
    → dec64_loop (x ∷ xs) (b * 2 ^ 12) 2 room ≡ dec64_loop xs ((b * 64 + dec64chr x) * 2 ^ 6) 3 room
unfolding dec64_loop
place2 x b xs room h =
    let n : negative (dec64chr x) ≡ false = ground (arith, h) in
    let m : (dec64chr x * 2 ^ 6) % word ≡ dec64chr x * 2 ^ 6 = omega (arith, h) in
    let o = bit_or_fields 12 b (dec64chr x * 2 ^ 6) (omega (arith, h)) in
    let p : b * 2 ^ 12 + dec64chr x * 2 ^ 6 ≡ (b * 64 + dec64chr x) * 2 ^ 6 = omega arith in
    rw (dec64_loop, n, m, o, p) refl

place3 :
    (x b : ℕ) (xs : List ℕ) (room : ℕ)
    → dec64chr x < 64
    → 3 ≤ room
    → (d : ℕ) × (d ≡ b * 64 + dec64chr x)
      × (dec64_loop (x ∷ xs) (b * 2 ^ 6) 3 room
          ≡ (d / 65536) % 256 ∷ (d / 256) % 256 ∷ d % 256 ∷ dec64_loop xs d 0 (room - 3))
unfolding dec64_loop
place3 x b xs room h r =
    let n : negative (dec64chr x) ≡ false = ground (arith, h) in
    let l : ltb room 3 ≡ false = ground (arith, r) in
    (bit_or (b * 2 ^ 6) (dec64chr x), bit_or_fields 6 b (dec64chr x) h, rw (dec64_loop, n, l) refl)

-- The padding is passed over.
pub padding : (xs : List ℕ) (b i room : ℕ) → dec64_loop (61 ∷ xs) b i room ≡ dec64_loop xs b i room
unfolding dec64_loop
padding xs b i room =
    let n : negative (dec64chr 61) ≡ true = pad_negative in rw (dec64_loop, n) refl

pub bits24-value : (x y z : ℕ) → y < 256 → z < 256 → bits24 x y z ≡ (x * 256 + y) * 256 + z
unfolding bits24
bits24-value x y z h k =
    let o = bit_or_fields 16 x (y * 256) (omega (arith, h)) in
    let p : x * 2 ^ 16 + y * 256 ≡ (x * 256 + y) * 2 ^ 8 = omega arith in
    let q = bit_or_fields 8 (x * 256 + y) z (omega (arith, k)) in ap (λ t. bit_or t z) (o ∙ p) ∙ q

top_digit : (b : ℕ) → b < 2 ^ 24 → dec64chr (enc64chr (b / 2 ^ 18)) ≡ b / 2 ^ 18
top_digit b h = dec64chr-enc64chr (b / 2 ^ 18) (omega (arith, h))

dec64chr-digit64 : (k b : ℕ) → dec64chr (digit64 k b) ≡ (b / 2 ^ k) % 64
dec64chr-digit64 k b =
    let m : bit_and (b / 2 ^ k) 63 ≡ (b / 2 ^ k) % 64 = bit_and_mask 6 (b / 2 ^ k) in
    ap (λ (t : ℕ). dec64chr (enc64chr t)) m ∙ dec64chr-enc64chr ((b / 2 ^ k) % 64) (omega arith)

last_digit : (b : ℕ) → dec64chr (enc64chr (bit_and b 63)) ≡ b % 64
last_digit b =
    let m : bit_and b 63 ≡ b % 64 = bit_and_mask 6 b in
    ap (λ (t : ℕ). dec64chr (enc64chr t)) m ∙ dec64chr-enc64chr (b % 64) (omega arith)

-- The first two and the first three digits of 24 bits.
pub two_digits :
    (b b0 : ℕ) (xs : List ℕ) (room : ℕ)
    → b < 2 ^ 24
    → dec64_loop (enc64chr (b / 2 ^ 18) ∷ digit64 12 b ∷ xs) b0 0 room
      ≡ dec64_loop xs ((b / 2 ^ 12) * 2 ^ 12) 2 room
two_digits b b0 xs room h =
    let e = top_digit b h in
    let f = dec64chr-digit64 12 b in
    let g : dec64chr (enc64chr (b / 2 ^ 18)) * 64 + dec64chr (digit64 12 b) ≡ b / 2 ^ 12 =
      omega (arith, e, f) in
    place0 (enc64chr (b / 2 ^ 18)) b0 (digit64 12 b ∷ xs) room (omega (arith, e, h))
    ∙ place1 (digit64 12 b) (dec64chr (enc64chr (b / 2 ^ 18))) xs room (omega (arith, f))
    ∙ ap (λ t. dec64_loop xs (t * 2 ^ 12) 2 room) g

pub three_digits :
    (b b0 : ℕ) (xs : List ℕ) (room : ℕ)
    → b < 2 ^ 24
    → dec64_loop (enc64chr (b / 2 ^ 18) ∷ digit64 12 b ∷ digit64 6 b ∷ xs) b0 0 room
      ≡ dec64_loop xs ((b / 2 ^ 6) * 2 ^ 6) 3 room
three_digits b b0 xs room h =
    let f = dec64chr-digit64 6 b in
    let g : (b / 2 ^ 12) * 64 + dec64chr (digit64 6 b) ≡ b / 2 ^ 6 = omega (arith, f) in
    two_digits b b0 (digit64 6 b ∷ xs) room h
    ∙ place2 (digit64 6 b) (b / 2 ^ 12) xs room (omega (arith, f))
    ∙ ap (λ t. dec64_loop xs (t * 2 ^ 6) 3 room) g

-- A whole group, read back with whatever follows.
pub group :
    (b b0 : ℕ) (xs : List ℕ) (room : ℕ)
    → b < 2 ^ 24
    → 3 ≤ room
    → dec64_loop
        (enc64chr (b / 2 ^ 18) ∷ digit64 12 b ∷ digit64 6 b ∷ enc64chr (bit_and b 63) ∷ xs)
        b0
        0
        room
      ≡ (b / 65536) % 256 ∷ (b / 256) % 256 ∷ b % 256 ∷ dec64_loop xs b 0 (room - 3)
group b b0 xs room h r =
    let f = last_digit b in
    let (d, v, e) = place3 (enc64chr (bit_and b 63)) (b / 2 ^ 6) xs room (omega (arith, f)) r in
    let g : d ≡ b = omega (arith, v, f) in
    three_digits b b0 (enc64chr (bit_and b 63) ∷ xs) room h
    ∙ e
    ∙ ap (λ t. (t / 65536) % 256 ∷ (t / 256) % 256 ∷ t % 256 ∷ dec64_loop xs t 0 (room - 3)) g
