-- ===== src/Enc/Bounds.antt =====
-- The functions of Enc store no more than there is room for.
use drawterm_android.Base.{
  ℕ, ◌+◌, ◌-◌, ◌*◌, ◌%◌, ◌^◌, ◌≤◌, ◌<◌, arith, leb, Bool-cases, List, [], ◌∷◌, length, inl, inr,
  ◌++◌, length-append, ◌≡◌,
}
use Prim.Native.Nat.{bit_or}
use drawterm_android.Enc.{
  enc16_loop, enc16, enc64, dec16_loop, dec16, dec16chr, dec64chr, enc64_loop, dec64_end,
  dec64_loop, dec64, word,
}

enc16_loop_bounds : (room : ℕ) (xs : List ℕ) → 0 < room → length (enc16_loop room xs) + 1 ≤ room
unfolding enc16_loop
enc16_loop_bounds room [] h = omega (arith, h)
enc16_loop_bounds room (x ∷ xs) h = elim (Bool-cases (leb room 2)) [
  | inl e ↦ rw (enc16_loop, e) (omega (arith, h))
  | inr e ↦ rw (enc16_loop, e) (ground (arith, e, enc16_loop_bounds (room - 2) xs))
]

dec16_bounds : (xs : List ℕ) (w i room : ℕ) → length (dec16_loop xs w i room) ≤ room
unfolding dec16_loop
dec16_bounds [] w i room = omega arith
dec16_bounds (x ∷ xs) w i room =
    let w' = (w * 16 + dec16chr x) % word in
    ground (
      arith,
      dec16_bounds xs w i room,
      dec16_bounds xs w' (i + 1) room,
      dec16_bounds xs 0 0 (room - 1),
    )

enc64_loop_bounds : (room : ℕ) (xs : List ℕ) → 0 < room → length (enc64_loop room xs) + 1 ≤ room
unfolding enc64_loop
enc64_loop_bounds room [] h = omega (arith, h)
enc64_loop_bounds room (x ∷ []) h = ground (arith, h)
enc64_loop_bounds room (x ∷ y ∷ []) h = ground (arith, h)
enc64_loop_bounds room (x ∷ y ∷ z ∷ xs) h = ground (arith, h, enc64_loop_bounds (room - 4) xs)

dec64_end_bounds : (b i room : ℕ) → length (dec64_end b i room) ≤ room
unfolding dec64_end
dec64_end_bounds b i room = ground arith

dec64_loop_bounds : (xs : List ℕ) (b i room : ℕ) → length (dec64_loop xs b i room) ≤ room
unfolding dec64_loop
dec64_loop_bounds [] b i room = dec64_end_bounds b i room
dec64_loop_bounds (x ∷ xs) b i room =
    let c = dec64chr x in
    ground (
      arith,
      dec64_loop_bounds xs b i room,
      dec64_loop_bounds xs ((c * 2 ^ 18) % word) 1 room,
      dec64_loop_bounds xs (bit_or b ((c * 2 ^ 12) % word)) 2 room,
      dec64_loop_bounds xs (bit_or b ((c * 2 ^ 6) % word)) 3 room,
      dec64_loop_bounds xs (bit_or b c) 0 (room - 3),
    )

stored_length : (xs : List ℕ) → length (xs ++ 0 ∷ []) ≡ length xs + 1
stored_length xs = length-append xs (0 ∷ [])

-- In a buffer of at least one byte, enc16 and enc64 store no more bytes than it has, the NUL
-- included, and return the number of the bytes before the NUL; and dec16 and dec64 store at most
-- `lim` bytes, whatever the text.
pub encodings_bounds :
    (room lim : ℕ) (xs : List ℕ)
    → 0 < room
    → (length (enc16 room xs).1 ≤ room)
      × (length (enc16 room xs).1 ≡ (enc16 room xs).0 + 1)
      × (length (enc64 room xs).1 ≤ room)
      × (length (enc64 room xs).1 ≡ (enc64 room xs).0 + 1)
      × (length (dec16 lim xs) ≤ lim)
      × (length (dec64 lim xs) ≤ lim)
unfolding dec16 dec64 enc16 enc64
encodings_bounds room lim xs h =
    let a = stored_length (enc16_loop room xs) in
    let b = stored_length (enc64_loop room xs) in
    (
      omega (arith, a, enc16_loop_bounds room xs h),
      a,
      omega (arith, b, enc64_loop_bounds room xs h),
      b,
      dec16_bounds xs 0 0 lim,
      dec64_loop_bounds xs 0 0 lim,
    )
