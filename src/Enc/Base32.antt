-- ===== src/Enc/Base32.antt =====
-- enc32 and dec32: libc/u32.c. `none` is the result -1.
pub mod Digits
pub mod RoundTrip
use drawterm_android.Base.{
  ℕ, ◌+◌, ◌*◌, ◌/◌, ◌%◌, ltb, leb, Bool, true, false, if◌then◌else◌, Option, none, some, List, [],
  ◌∷◌, length,
}
use Prim.Native.Nat.{bit_and, bit_or}
use drawterm_android.Enc.{word, sub_int, between, negative}

unfoldable pub enc32chr : ℕ → ℕ
enc32chr o =
    bit_or (bit_and (between o 0 25) ((65 + o) % word))
      (bit_and (between o 26 31) ((50 + sub_int o 26) % word))

unfoldable pub dec32chr : ℕ → ℕ
dec32chr c =
    sub_int
      (bit_or
        (bit_or (bit_and (between c 65 90) ((1 + sub_int c 65) % word))
          (bit_and (between c 97 122) ((1 + sub_int c 97) % word)))
        (bit_and (between c 50 55) ((1 + 26 + sub_int c 50) % word)))
      1

-- The eight digits of five bytes, by the bytes that they are made of.
unfoldable pub digit0 : ℕ → ℕ
digit0 a = bit_and (a / 8) 31

unfoldable pub digit1 : ℕ → ℕ → ℕ
digit1 a b = bit_or (bit_and (a * 4) 28) (bit_and (b / 64) 3)

unfoldable pub digit2 : ℕ → ℕ
digit2 b = bit_and (b / 2) 31

unfoldable pub digit3 : ℕ → ℕ → ℕ
digit3 b c = bit_or (bit_and (b * 16) 16) (bit_and (c / 16) 15)

unfoldable pub digit4 : ℕ → ℕ → ℕ
digit4 c d = bit_or (bit_and (c * 2) 30) (bit_and (d / 128) 1)

unfoldable pub digit5 : ℕ → ℕ
digit5 d = bit_and (d / 4) 31

unfoldable pub digit6 : ℕ → ℕ → ℕ
digit6 d e = bit_or (bit_and (d * 8) 24) (bit_and (e / 32) 7)

unfoldable pub digit7 : ℕ → ℕ
digit7 e = bit_and e 31

-- The digits of a text; the last of an incomplete group lack what the missing byte would give.
unfoldable pub digits32 : List ℕ → List ℕ
digits32 [] = []
digits32 (a ∷ []) = digit0 a ∷ bit_and (a * 4) 28 ∷ []
digits32 (a ∷ b ∷ []) = digit0 a ∷ digit1 a b ∷ digit2 b ∷ bit_and (b * 16) 16 ∷ []
digits32 (a ∷ b ∷ c ∷ []) = digit0 a ∷ digit1 a b ∷ digit2 b ∷ digit3 b c ∷ bit_and (c * 2) 30 ∷ []
digits32 (a ∷ b ∷ c ∷ d ∷ []) =
    digit0 a ∷ digit1 a b ∷ digit2 b ∷ digit3 b c ∷ digit4 c d ∷ digit5 d ∷ bit_and (d * 8) 24 ∷ []
digits32 (a ∷ b ∷ c ∷ d ∷ e ∷ xs) =
    digit0 a
    ∷ digit1 a b
    ∷ digit2 b
    ∷ digit3 b c
    ∷ digit4 c d
    ∷ digit5 d
    ∷ digit6 d e
    ∷ digit7 e
    ∷ digits32 xs

abbrev pub chars32 : List ℕ → List ℕ
chars32 [] = []
chars32 (j ∷ js) = enc32chr j ∷ chars32 js

-- The characters that enc32 stores before the NUL.
unfoldable pub enc32 : ℕ → List ℕ → Option (List ℕ)
enc32 ndest xs = if leb ndest ((8 * length xs + 4) / 5) then none else some (chars32 (digits32 xs))

-- `j = dec32chr(src[i]); if(j < 0) j = 0;`
unfoldable pub value32 : ℕ → ℕ
value32 x = if negative (dec32chr x) then 0 else dec32chr x

unfoldable pub byte0 : ℕ → ℕ → ℕ
byte0 u0 u1 = bit_or (u0 * 8) (bit_and (u1 / 4) 7) % 256

unfoldable pub byte1 : ℕ → ℕ → ℕ → ℕ
byte1 u1 u2 u3 = bit_or (bit_or (bit_and u1 3 * 64) (u2 * 2)) (bit_and (u3 / 16) 1) % 256

unfoldable pub byte2 : ℕ → ℕ → ℕ
byte2 u3 u4 = bit_or (bit_and u3 15 * 16) (bit_and (u4 / 2) 15) % 256

unfoldable pub byte3 : ℕ → ℕ → ℕ → ℕ
byte3 u4 u5 u6 = bit_or (bit_or (bit_and u4 1 * 128) (u5 * 4)) (bit_and (u6 / 8) 3) % 256

unfoldable pub byte4 : ℕ → ℕ → ℕ
byte4 u6 u7 = bit_or (bit_and u6 7 * 32) u7 % 256

abbrev pub put5 : ℕ → ℕ → ℕ → ℕ → ℕ → Option (List ℕ) → Option (List ℕ)
put5 a b c d e none = none
put5 a b c d e (some xs) = some (a ∷ b ∷ c ∷ d ∷ e ∷ xs)

-- The bytes for the values of the characters; 1, 3 or 6 characters at the end are refused.
unfoldable pub bytes32 : List ℕ → Option (List ℕ)
bytes32 [] = some []
bytes32 (a ∷ []) = none
bytes32 (a ∷ b ∷ []) = some (byte0 a b ∷ [])
bytes32 (a ∷ b ∷ c ∷ []) = none
bytes32 (a ∷ b ∷ c ∷ d ∷ []) = some (byte0 a b ∷ byte1 b c d ∷ [])
bytes32 (a ∷ b ∷ c ∷ d ∷ e ∷ []) = some (byte0 a b ∷ byte1 b c d ∷ byte2 d e ∷ [])
bytes32 (a ∷ b ∷ c ∷ d ∷ e ∷ f ∷ []) = none
bytes32 (a ∷ b ∷ c ∷ d ∷ e ∷ f ∷ g ∷ []) =
    some (byte0 a b ∷ byte1 b c d ∷ byte2 d e ∷ byte3 e f g ∷ [])
bytes32 (a ∷ b ∷ c ∷ d ∷ e ∷ f ∷ g ∷ h ∷ us) =
    put5 (byte0 a b) (byte1 b c d) (byte2 d e) (byte3 e f g) (byte4 g h) (bytes32 us)

abbrev pub values32 : List ℕ → List ℕ
values32 [] = []
values32 (x ∷ xs) = value32 x ∷ values32 xs

unfoldable pub dec32 : ℕ → List ℕ → Option (List ℕ)
dec32 ndest xs = if ltb (ndest + 1) ((5 * length xs + 7) / 8) then none else bytes32 (values32 xs)
