-- ===== src/Ip.antt =====
-- Big-endian numbers of network headers: libip/bo.c. A `uchar*` is the list of the bytes from the
-- pointer on; `none` is a read behind it. An `int` has 32 bits, two's complement.
mod Tests
pub mod Order
use Prim.Native.Nat.{bit_or}
use drawterm_android.Base.{
  ℕ, ◌+◌, ◌-◌, ◌*◌, ◌/◌, ◌%◌, ◌^◌, ltb, if◌then◌else◌, Option, none, some, List, [], ◌∷◌,
}

-- `v >> n`, stored in a `uchar`.
abbrev pub byte : ℕ → ℕ → ℕ
byte v n = v / 2 ^ n % 256

unfoldable pub hnputv : List ℕ → ℕ → Option (List ℕ)
hnputv (_ ∷ _ ∷ _ ∷ _ ∷ _ ∷ _ ∷ _ ∷ _ ∷ p) v = some (
    byte v 56 ∷ byte v 48 ∷ byte v 40 ∷ byte v 32 ∷ byte v 24 ∷ byte v 16 ∷ byte v 8 ∷ byte v 0 ∷ p)
hnputv p v = none

unfoldable pub hnputl : List ℕ → ℕ → Option (List ℕ)
hnputl (_ ∷ _ ∷ _ ∷ _ ∷ p) v = some (byte v 24 ∷ byte v 16 ∷ byte v 8 ∷ byte v 0 ∷ p)
hnputl p v = none

unfoldable pub hnputs : List ℕ → ℕ → Option (List ℕ)
hnputs (_ ∷ _ ∷ p) v = some (byte v 8 ∷ byte v 0 ∷ p)
hnputs p v = none

-- `a[4] << 24` is an `int`, and negative where the top bit of the byte is set. As a `uvlong` it
-- then has its high 32 bits set.
unfoldable pub int_shift24 : ℕ → ℕ
int_shift24 b = if ltb b 128 then b * 2 ^ 24 else b * 2 ^ 24 + (2 ^ 32 - 1) * 2 ^ 32

unfoldable pub nhgetv : List ℕ → Option ℕ
nhgetv (a0 ∷ a1 ∷ a2 ∷ a3 ∷ a4 ∷ a5 ∷ a6 ∷ a7 ∷ p) =
    let v0 = a0 * 2 ^ 56 in
    let v1 = bit_or v0 (a1 * 2 ^ 48) in
    let v2 = bit_or v1 (a2 * 2 ^ 40) in
    let v3 = bit_or v2 (a3 * 2 ^ 32) in
    let v4 = bit_or v3 (int_shift24 a4) in
    let v5 = bit_or v4 (a5 * 2 ^ 16) in let v6 = bit_or v5 (a6 * 2 ^ 8) in some (bit_or v6 a7)
nhgetv p = none

-- The `int` converted to `uint` has the same 32 bits.
unfoldable pub nhgetl : List ℕ → Option ℕ
nhgetl (a0 ∷ a1 ∷ a2 ∷ a3 ∷ p) =
    some (bit_or (bit_or (bit_or (a0 * 2 ^ 24) (a1 * 2 ^ 16)) (a2 * 2 ^ 8)) a3)
nhgetl p = none

unfoldable pub nhgets : List ℕ → Option ℕ
nhgets (a0 ∷ a1 ∷ p) = some (bit_or (a0 * 2 ^ 8) a1)
nhgets p = none
