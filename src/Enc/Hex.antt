-- ===== src/Enc/Hex.antt =====
-- enc16 and dec16: what is read back.
use drawterm_android.Base.{
  ℕ, zero, suc, ◌+◌, ◌-◌, ◌*◌, ◌/◌, ◌%◌, ◌<◌, ◌≡◌, ◌∙◌, refl, sym, ap, arith, ltb, leb, false,
  Bool-cases, List, [], ◌∷◌, take, take-append, All, bit_and_mask, inl, inr,
}
use Prim.Native.Nat.{bit_and}
use drawterm_android.Enc.{enc16chr, dec16chr, enc16_loop, enc16, dec16_loop, dec16, negative, word}
use drawterm_android.Enc.Chars.{dec16chr-enc16chr}

-- A digit of 4 bits goes through the loop, as the first or the second of a byte.
first_digit :
    (x : ℕ) (xs : List ℕ) (room : ℕ)
    → dec16chr x < 16
    → dec16_loop (x ∷ xs) 0 0 room ≡ dec16_loop xs (dec16chr x) 1 room
unfolding dec16_loop
first_digit x xs room h =
    let n : negative (dec16chr x) ≡ false = ground (arith, h) in
    let m : (0 + dec16chr x) % word ≡ dec16chr x = omega (arith, h) in rw (dec16_loop, n, m) refl

second_digit :
    (x w : ℕ) (xs : List ℕ) (room : ℕ)
    → dec16chr x < 16
    → w < 16
    → dec16_loop (x ∷ xs) w 1 (suc room) ≡ (w * 16 + dec16chr x) ∷ dec16_loop xs 0 0 room
unfolding dec16_loop
second_digit x w xs room h k =
    let n : negative (dec16chr x) ≡ false = ground (arith, h) in
    let m : (w * 16 + dec16chr x) % 256 ≡ w * 16 + dec16chr x = omega (arith, h, k) in
    let r : suc room - 1 ≡ room = omega arith in
    let l : ltb (suc room) 1 ≡ false = ground arith in rw (dec16_loop, n, l, m, r) refl

second_digit_full : (x w : ℕ) (xs : List ℕ) → dec16chr x < 16 → dec16_loop (x ∷ xs) w 1 0 ≡ []
unfolding dec16_loop
second_digit_full x w xs h =
    let n : negative (dec16chr x) ≡ false = ground (arith, h) in rw (dec16_loop, n) refl

abbrev high : ℕ → ℕ
high x = enc16chr (x / 16)

abbrev low : ℕ → ℕ
low x = enc16chr (bit_and x 15)

low_digit : (x : ℕ) → dec16chr (low x) ≡ x % 16
low_digit x =
    let m : bit_and x 15 ≡ x % 16 = bit_and_mask 4 x in
    ap (λ (t : ℕ). dec16chr (enc16chr t)) m ∙ dec16chr-enc16chr (x % 16) (omega arith)

-- One byte goes through both loops.
one_byte :
    (x : ℕ) (xs : List ℕ) (room : ℕ)
    → x < 256
    → dec16_loop (high x ∷ low x ∷ xs) 0 0 (suc room) ≡ x ∷ dec16_loop xs 0 0 room
one_byte x xs room h =
    let e = dec16chr-enc16chr (x / 16) (omega (arith, h)) in
    let f = low_digit x in
    let b : dec16chr (high x) * 16 + dec16chr (low x) ≡ x = omega (arith, e, f) in
    first_digit (high x) (low x ∷ xs) (suc room) (omega (arith, e, h))
    ∙ second_digit (low x) (dec16chr (high x)) xs room (omega (arith, f)) (omega (arith, e, h))
    ∙ ap (λ t. t ∷ dec16_loop xs 0 0 room) b

no_byte : (x : ℕ) (xs : List ℕ) → x < 256 → dec16_loop (high x ∷ low x ∷ xs) 0 0 0 ≡ []
no_byte x xs h =
    let e = dec16chr-enc16chr (x / 16) (omega (arith, h)) in
    first_digit (high x) (low x ∷ xs) 0 (omega (arith, e, h))
    ∙ second_digit_full (low x) (dec16chr (high x)) xs (omega (arith, low_digit x))

nothing : (n : ℕ) (xs : List ℕ) → xs ≡ [] → take n xs ≡ []
nothing zero xs e = refl
nothing (suc n) xs e = rw e refl

-- The step for one byte more in the room.
reads_one :
    (room lim x : ℕ) (xs : List ℕ)
    → leb room 2 ≡ false
    → x < 256
    → dec16_loop (enc16_loop (room - 2) xs) 0 0 lim ≡ take lim (take ((room - 2 - 1) / 2) xs)
    → dec16_loop (high x ∷ low x ∷ enc16_loop (room - 2) xs) 0 0 (suc lim)
      ≡ take (suc lim) (take ((room - 1) / 2) (x ∷ xs))
reads_one room lim x xs e p r =
    let n : (room - 1) / 2 ≡ suc ((room - 2 - 1) / 2) = ground (arith, e) in
    one_byte x (enc16_loop (room - 2) xs) lim p
    ∙ ap (λ t. x ∷ t) r
    ∙ ap (λ t. take (suc lim) (take t (x ∷ xs))) (sym n)

reads16 :
    (xs : List ℕ) (room lim : ℕ)
    → All (λ x. x < 256) xs
    → dec16 lim (enc16_loop room xs) ≡ take lim (take ((room - 1) / 2) xs)
unfolding dec16 enc16_loop dec16_loop
reads16 [] room lim h = sym (nothing lim _ (nothing ((room - 1) / 2) [] refl))
reads16 (x ∷ xs) room zero (p, h) = elim (Bool-cases (leb room 2)) [
  | inl e ↦ rw (enc16_loop, e) refl
  | inr e ↦ rw (enc16_loop, e) (no_byte x (enc16_loop (room - 2) xs) p)
]
reads16 (x ∷ xs) room (suc lim) (p, h) = elim (Bool-cases (leb room 2)) [
  | inl e ↦ let z : (room - 1) / 2 ≡ 0 = ground (arith, e) in rw (enc16_loop, e, z) refl
  | inr e ↦ rw (enc16_loop, e) (reads_one room lim x xs e p (reads16 xs (room - 2) lim h))
]

-- What dec16 reads back from the bytes before the NUL that enc16 stores in `room` bytes, as many as
-- it returns, is as many of the first bytes as there are pairs of characters before the last byte
-- of the room, and at most `lim`; when the room is more than twice the number of the bytes, and
-- `lim` is not less, it is all of them.
pub dec16-enc16 :
    (xs : List ℕ) (room lim : ℕ)
    → All (λ x. x < 256) xs
    → dec16 lim (take (enc16 room xs).0 (enc16 room xs).1) ≡ take lim (take ((room - 1) / 2) xs)
unfolding enc16
dec16-enc16 xs room lim h =
    ap (dec16 lim) (take-append (enc16_loop room xs) (0 ∷ [])) ∙ reads16 xs room lim h
