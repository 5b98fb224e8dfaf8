-- ===== src/Enc/Base64/RoundTrip.antt =====
-- enc64 and dec64: what is read back.
use drawterm_android.Base.{
  ℕ, ◌+◌, ◌-◌, ◌*◌, ◌/◌, ◌%◌, ◌^◌, ◌≤◌, ◌<◌, ◌≡◌, ◌∙◌, refl, ap, arith, ltb, leb, false, List, [],
  ◌∷◌, length, take, take-append, All, bit_or_fields,
}
use Prim.Native.Nat.{bit_and, bit_or}
use drawterm_android.Enc.{
  enc64chr, bits24, digit64, enc64_loop, enc64, dec64_end, dec64_loop, dec64,
}
use drawterm_android.Enc.Base64.{padding, bits24-value, two_digits, three_digits, group}

-- The characters that stand for a text: four for each three bytes begun.
unfoldable pub chars64 : List ℕ → ℕ
chars64 [] = 0
chars64 (x ∷ []) = 4
chars64 (x ∷ y ∷ []) = 4
chars64 (x ∷ y ∷ z ∷ xs) = 4 + chars64 xs

end2 : (b lim : ℕ) → 1 ≤ lim → dec64_loop [] b 2 lim ≡ (b / 65536) % 256 ∷ []
unfolding dec64_loop dec64_end
end2 b lim l = let n : ltb lim 1 ≡ false = ground (arith, l) in rw n refl

end3 : (b lim : ℕ) → 2 ≤ lim → dec64_loop [] b 3 lim ≡ (b / 65536) % 256 ∷ (b / 256) % 256 ∷ []
unfolding dec64_loop dec64_end
end3 b lim l = let n : ltb lim 2 ≡ false = ground (arith, l) in rw n refl

nothing64 : (room lim b0 : ℕ) → dec64_loop (enc64_loop room []) b0 0 lim ≡ []
unfolding enc64_loop dec64_loop dec64_end
nothing64 room lim b0 = refl

one_left :
    (x b0 lim : ℕ)
    → x < 256
    → 1 ≤ lim
    → dec64_loop (enc64chr (x * 65536 / 2 ^ 18) ∷ digit64 12 (x * 65536) ∷ 61 ∷ 61 ∷ []) b0 0 lim
      ≡ x ∷ []
one_left x b0 lim p l =
    let b = x * 65536 in
    let v = (b / 2 ^ 12) * 2 ^ 12 in
    let e : (v / 65536) % 256 ≡ x = omega (arith, p) in
    two_digits b b0 (61 ∷ 61 ∷ []) lim (omega (arith, p))
    ∙ padding (61 ∷ []) v 2 lim
    ∙ padding [] v 2 lim
    ∙ end2 v lim l
    ∙ ap (λ t. t ∷ []) e

two_left :
    (x y b0 lim : ℕ)
    → x < 256
    → y < 256
    → 2 ≤ lim
    → (b : ℕ) → b ≡ (x * 256 + y) * 256
    → dec64_loop (enc64chr (b / 2 ^ 18) ∷ digit64 12 b ∷ digit64 6 b ∷ 61 ∷ []) b0 0 lim
      ≡ x ∷ y ∷ []
two_left x y b0 lim p q l b e =
    let v = (b / 2 ^ 6) * 2 ^ 6 in
    let f : (v / 65536) % 256 ≡ x = omega (arith, p, q, e) in
    let g : (v / 256) % 256 ≡ y = omega (arith, p, q, e) in
    three_digits b b0 (61 ∷ []) lim (omega (arith, p, q, e))
    ∙ padding [] v 3 lim
    ∙ end3 v lim l
    ∙ ap (λ t. t ∷ (v / 256) % 256 ∷ []) f
    ∙ ap (λ t. x ∷ t ∷ []) g

three_left :
    (x y z b0 lim : ℕ) (xs ys : List ℕ)
    → x < 256
    → y < 256
    → z < 256
    → 3 ≤ lim
    → (b : ℕ) → b ≡ (x * 256 + y) * 256 + z
    → dec64_loop xs b 0 (lim - 3) ≡ ys
    → dec64_loop
        (enc64chr (b / 2 ^ 18) ∷ digit64 12 b ∷ digit64 6 b ∷ enc64chr (bit_and b 63) ∷ xs)
        b0
        0
        lim
      ≡ x ∷ y ∷ z ∷ ys
three_left x y z b0 lim xs ys p q s l b e r =
    let f : (b / 65536) % 256 ≡ x = omega (arith, p, q, s, e) in
    let g : (b / 256) % 256 ≡ y = omega (arith, p, q, s, e) in
    let k : b % 256 ≡ z = omega (arith, p, q, s, e) in
    group b b0 xs lim (omega (arith, p, q, s, e)) l
    ∙ ap (λ t. t ∷ (b / 256) % 256 ∷ b % 256 ∷ dec64_loop xs b 0 (lim - 3)) f
    ∙ ap (λ t. x ∷ t ∷ b % 256 ∷ dec64_loop xs b 0 (lim - 3)) g
    ∙ ap (λ t. x ∷ y ∷ t ∷ dec64_loop xs b 0 (lim - 3)) k
    ∙ ap (λ t. x ∷ y ∷ z ∷ t) r

reads64 :
    (xs : List ℕ) (room lim b0 : ℕ)
    → All (λ x. x < 256) xs
    → chars64 xs < room
    → length xs ≤ lim
    → dec64_loop (enc64_loop room xs) b0 0 lim ≡ xs
unfolding chars64 enc64_loop dec64_loop
reads64 [] room lim b0 h r l = nothing64 room lim b0
reads64 (x ∷ []) room lim b0 (p, h) r l =
    let n : leb room 4 ≡ false = ground (arith, r) in rw (enc64_loop, n) (one_left x b0 lim p l)
reads64 (x ∷ y ∷ []) room lim b0 (p, (q, h)) r l =
    let n : leb room 4 ≡ false = ground (arith, r) in
    let o = bit_or_fields 16 x (y * 256) (omega (arith, q)) in
    rw (enc64_loop, n) (two_left x y b0 lim p q l (bit_or (x * 65536) (y * 256)) (omega (arith, o)))
reads64 (x ∷ y ∷ z ∷ xs) room lim b0 (p, (q, (s, h))) r l =
    let n : leb room 4 ≡ false = ground (arith, r) in
    rw (enc64_loop, n)
      (three_left x y z b0 lim (enc64_loop (room - 4) xs) xs p q s (omega (arith, l)) (bits24 x y z)
        (bits24-value x y z q s)
        (reads64 xs (room - 4) (lim - 3) (bits24 x y z) h (omega (arith, r)) (omega (arith, l))))

-- dec64 reads back the bytes that enc64 coded from what it stores before the NUL, as many characters
-- as it returns, when there was room for all their characters and the NUL and `lim` is at least
-- their number.
pub dec64-enc64 :
    (xs : List ℕ) (room lim : ℕ)
    → All (λ x. x < 256) xs
    → chars64 xs < room
    → length xs ≤ lim
    → dec64 lim (take (enc64 room xs).0 (enc64 room xs).1) ≡ xs
unfolding dec64 enc64
dec64-enc64 xs room lim h r l =
    ap (dec64 lim) (take-append (enc64_loop room xs) (0 ∷ [])) ∙ reads64 xs room lim 0 h r l
