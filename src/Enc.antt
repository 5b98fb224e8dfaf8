-- ===== src/Enc.antt =====
-- The encodings of bytes as text: libc/u16.c, libc/u32.c and libc/u64.c. An int stands by its 32 bits.
-- A buffer is the number of bytes that are left of it; a function gives what it stores.
pub mod Chars
pub mod Hex
pub mod Base64
pub mod Base32
pub mod Bounds
mod Tests
use drawterm_android.Base.{
  ℕ, ◌+◌, ◌-◌, ◌*◌, ◌/◌, ◌%◌, ◌^◌, ltb, leb, ◌==◌, Bool, true, false, if◌then◌else◌, List, [], ◌∷◌,
  ◌++◌, length,
}
use Prim.Native.Nat.{bit_and, bit_or}

abbrev pub word : ℕ
word = 2 ^ 32

-- `a - b` on ints.
abbrev pub sub_int : ℕ → ℕ → ℕ
sub_int a b = (a + word - b) % word

-- `a >> 8` on ints, which keeps the sign.
abbrev pub shift8 : ℕ → ℕ
shift8 a = if leb (2 ^ 31) a then a / 256 + (word - 2 ^ 24) else a / 256

-- The macro between: all bits where `x` is in the range.
unfoldable pub between : ℕ → ℕ → ℕ → ℕ
between x lo hi = shift8 (bit_and (sub_int (sub_int lo 1) x) (sub_int (sub_int x hi) 1))

abbrev pub negative : ℕ → Bool
negative c = leb (2 ^ 31) c

unfoldable pub enc16chr : ℕ → ℕ
enc16chr o =
    bit_or (bit_and (between o 0 9) (48 + o))
      (bit_and (between o 10 15) ((65 + sub_int o 10) % word))

unfoldable pub dec16chr : ℕ → ℕ
dec16chr c =
    sub_int
      (bit_or
        (bit_or (bit_and (between c 48 57) ((1 + sub_int c 48) % word))
          (bit_and (between c 65 70) ((1 + 10 + sub_int c 65) % word)))
        (bit_and (between c 97 102) ((1 + 10 + sub_int c 97) % word)))
      1

unfoldable pub enc64chr : ℕ → ℕ
enc64chr o =
    bit_or
      (bit_or
        (bit_or
          (bit_or (bit_and (between o 0 25) ((65 + o) % word))
            (bit_and (between o 26 51) ((97 + sub_int o 26) % word)))
          (bit_and (between o 52 61) ((48 + sub_int o 52) % word)))
        (bit_and (between o 62 62) 43))
      (bit_and (between o 63 63) 47)

unfoldable pub dec64chr : ℕ → ℕ
dec64chr c =
    sub_int
      (bit_or
        (bit_or
          (bit_or
            (bit_or (bit_and (between c 65 90) ((1 + sub_int c 65) % word))
              (bit_and (between c 97 122) ((1 + 26 + sub_int c 97) % word)))
            (bit_and (between c 48 57) ((1 + 52 + sub_int c 48) % word)))
          (bit_and (between c 43 43) (1 + 62)))
        (bit_and (between c 47 47) (1 + 63)))
      1

-- The characters that enc16 stores before the NUL, with `room` bytes left.
unfoldable pub enc16_loop : ℕ → List ℕ → List ℕ
enc16_loop room [] = []
enc16_loop room (c ∷ cs) = elim (leb room 2) [
  | true ↦ []
  | false ↦ enc16chr (c / 16) ∷ enc16chr (bit_and c 15) ∷ enc16_loop (room - 2) cs
]

-- What enc16 returns, and all that it stores: `*out = 0` also where the room is exhausted.
unfoldable pub enc16 : ℕ → List ℕ → ℕ × List ℕ
enc16 room xs = let out = enc16_loop room xs in (length out, out ++ 0 ∷ [])

-- The bytes that dec16 stores from a state of its loop on.
unfoldable pub dec16_loop : List ℕ → ℕ → ℕ → ℕ → List ℕ
dec16_loop [] w i room = []
dec16_loop (x ∷ xs) w i room =
    let c = dec16chr x in
    elim (negative c) [
      | true ↦ dec16_loop xs w i room
      | false ↦ elim (i + 1 == 2) [
        | false ↦ dec16_loop xs ((w * 16 + c) % word) (i + 1) room
        | true ↦ elim (ltb room 1) [
          | true ↦ []
          | false ↦ (w * 16 + c) % 256 ∷ dec16_loop xs 0 0 (room - 1)
        ]
      ]
    ]

unfoldable pub dec16 : ℕ → List ℕ → List ℕ
dec16 lim xs = dec16_loop xs 0 0 lim

-- `x << 16 | y << 8 | z`
unfoldable pub bits24 : ℕ → ℕ → ℕ → ℕ
bits24 x y z = bit_or (bit_or (x * 65536) (y * 256)) z

-- The digit of 6 bits that `k` bits follow.
abbrev pub digit64 : ℕ → ℕ → ℕ
digit64 k b = enc64chr (bit_and (b / 2 ^ k) 63)

-- The characters that enc64 stores before the NUL, with `room` bytes left.
unfoldable pub enc64_loop : ℕ → List ℕ → List ℕ
enc64_loop room [] = []
enc64_loop room (x ∷ []) =
    let b = x * 65536 in
    elim (leb room 4) [ true ↦ [] | false ↦ enc64chr (b / 2 ^ 18) ∷ digit64 12 b ∷ 61 ∷ 61 ∷ [] ]
enc64_loop room (x ∷ y ∷ []) =
    let b = bit_or (x * 65536) (y * 256) in
    elim (leb room 4) [
      | true ↦ []
      | false ↦ enc64chr (b / 2 ^ 18) ∷ digit64 12 b ∷ digit64 6 b ∷ 61 ∷ []
    ]
enc64_loop room (x ∷ y ∷ z ∷ xs) =
    let b = bits24 x y z in
    elim (leb room 4) [
      | true ↦ []
      | false ↦
          enc64chr (b / 2 ^ 18)
          ∷ digit64 12 b
          ∷ digit64 6 b
          ∷ enc64chr (bit_and b 63)
          ∷ enc64_loop (room - 4) xs
    ]

-- What enc64 returns, and all that it stores.
unfoldable pub enc64 : ℕ → List ℕ → ℕ × List ℕ
enc64 room xs = let out = enc64_loop room xs in (length out, out ++ 0 ∷ [])

-- The switch behind the loop of dec64.
unfoldable pub dec64_end : ℕ → ℕ → ℕ → List ℕ
dec64_end b i room =
    if i == 2
    then if ltb room 1 then [] else (b / 65536) % 256 ∷ []
    else if i == 3
    then if ltb room 2 then [] else (b / 65536) % 256 ∷ (b / 256) % 256 ∷ []
    else []

-- The bytes that dec64 stores from a state of its loop on.
unfoldable pub dec64_loop : List ℕ → ℕ → ℕ → ℕ → List ℕ
dec64_loop [] b i room = dec64_end b i room
dec64_loop (x ∷ xs) b i room =
    let c = dec64chr x in
    elim (negative c) [
      | true ↦ dec64_loop xs b i room
      | false ↦ elim (i == 0) [
        | true ↦ dec64_loop xs ((c * 2 ^ 18) % word) 1 room
        | false ↦ elim (i == 1) [
          | true ↦ dec64_loop xs (bit_or b ((c * 2 ^ 12) % word)) 2 room
          | false ↦ elim (i == 2) [
            | true ↦ dec64_loop xs (bit_or b ((c * 2 ^ 6) % word)) 3 room
            | false ↦ elim (ltb room 3) [
              | true ↦ []
              | false ↦
                  let d = bit_or b c in
                  (d / 65536) % 256 ∷ (d / 256) % 256 ∷ d % 256 ∷ dec64_loop xs d 0 (room - 3)
            ]
          ]
        ]
      ]
    ]

unfoldable pub dec64 : ℕ → List ℕ → List ℕ
dec64 lim xs = dec64_loop xs 0 0 lim
