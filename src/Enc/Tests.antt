-- ===== src/Enc/Tests.antt =====
-- The theorems on encodings at concrete inputs.
use drawterm_android.Base.{
  refl, ℕ, ◌+◌, ◌-◌, ◌/◌, ◌≤◌, ◌≡◌, some, ◌<◌, All, arith, List, [], ◌∷◌, length, take,
}
use drawterm_android.Enc.{between, enc16, dec16, enc64, dec64}
use drawterm_android.Enc.Hex.{dec16-enc16}
use drawterm_android.Enc.Base64.RoundTrip.{dec64-enc64, chars64}
use drawterm_android.Enc.Base32.{
  enc32, dec32, bytes32, value32, dec32chr, byte0, byte1, byte2, byte3, byte4,
}
use drawterm_android.Enc.Base32.RoundTrip.{dec32-enc32}
use drawterm_android.Enc.Bounds.{encodings_bounds}

abbrev some_bytes : List ℕ
some_bytes = 0 ∷ 255 ∷ 65 ∷ 128 ∷ 7 ∷ []

some_bytes-All : All (λ x. x < 256) some_bytes
some_bytes-All = (omega arith, (omega arith, (omega arith, (omega arith, (omega arith, tt)))))

dec16-enc16_example :
    dec16 9 (take (enc16 11 some_bytes).0 (enc16 11 some_bytes).1)
    ≡ take 9 (take ((11 - 1) / 2) some_bytes)
dec16-enc16_example = dec16-enc16 some_bytes 11 9 some_bytes-All

dec64-enc64_example : dec64 5 (take (enc64 9 some_bytes).0 (enc64 9 some_bytes).1) ≡ some_bytes
unfolding chars64
dec64-enc64_example = dec64-enc64 some_bytes 9 5 some_bytes-All (omega arith) (omega arith)

encodings_bounds_example :
    (length (enc16 4 some_bytes).1 ≤ 4)
    × (length (enc16 4 some_bytes).1 ≡ (enc16 4 some_bytes).0 + 1)
    × (length (enc64 4 some_bytes).1 ≤ 4)
    × (length (enc64 4 some_bytes).1 ≡ (enc64 4 some_bytes).0 + 1)
    × (length (dec16 2 some_bytes) ≤ 2)
    × (length (dec64 2 some_bytes) ≤ 2)
encodings_bounds_example = encodings_bounds 4 2 some_bytes (omega arith)

dec32-enc32_example :
    (cs : List ℕ) × (enc32 9 some_bytes ≡ some cs)
    × (length cs + 1 ≤ 9)
    × (dec32 5 cs ≡ some some_bytes)
dec32-enc32_example = dec32-enc32 some_bytes 9 5 some_bytes-All (omega arith) (omega arith)

-- Five bytes are stored in a buffer of four.
beyond : dec32 4 (65 ∷ 65 ∷ 65 ∷ 65 ∷ 65 ∷ 65 ∷ 65 ∷ 66 ∷ []) ≡ some (0 ∷ 0 ∷ 0 ∷ 0 ∷ 1 ∷ [])
unfolding dec32 bytes32 value32 dec32chr between byte0 byte1 byte2 byte3 byte4
beyond = refl
