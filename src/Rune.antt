-- ===== src/Rune.antt =====
-- UTF-8: libc/rune.c, with the constants of include/lib.h.
-- include/lib.h defines `long` as `int`, of 32 bits. A string is the list of the bytes from
-- the pointer on; a read behind the list is a fault, `none`.
pub mod Bits
pub mod RoundTrip
pub mod Canonical
pub mod Counts
pub mod Text
mod Tests
use Prim.Native.Nat.{bit_and, bit_or, bit_xor}
use drawterm_android.Base.{
  ℕ, zero, suc, ◌+◌, ◌*◌, ◌/◌, ◌%◌, ◌^◌, ltb, leb, ◌==◌, ◌||◌, Bool, true, false, if◌then◌else◌,
  Option, none, some, List, [], ◌∷◌, length, get_elem?,
}

-- T1 to T5, Rune1 to Rune4, Maskx and Testx of the enumeration.
abbrev pub tx : ℕ
tx = 0x80

abbrev pub t2 : ℕ
t2 = 0xc0

abbrev pub t3 : ℕ
t3 = 0xe0

abbrev pub t4 : ℕ
t4 = 0xf0

abbrev pub t5 : ℕ
t5 = 0xf8

abbrev pub rune1 : ℕ
rune1 = 0x7f

abbrev pub rune2 : ℕ
rune2 = 0x7ff

abbrev pub rune3 : ℕ
rune3 = 0xffff

abbrev pub rune4 : ℕ
rune4 = 0x1fffff

abbrev pub maskx : ℕ
maskx = 0x3f

abbrev pub testx : ℕ
testx = 0xc0

abbrev pub runemax : ℕ
runemax = 0x10ffff

abbrev pub runeerror : ℕ
runeerror = 0xfffd

-- `x << Bitx` and `x >> n * Bitx`.
abbrev pub shl6 : ℕ → ℕ
shl6 x = x * 2 ^ 6

abbrev pub shr6 : ℕ → ℕ → ℕ
shr6 x n = x / 2 ^ (n * 6)

-- The rune stored at `rune` and the number returned.
pub record Decoded : Type 0 where
  pub rune : ℕ
  pub used : ℕ

abbrev pub decoded : ℕ → ℕ → Option Decoded
decoded r n = some (record { rune = r; used = n })

-- The label `bad`.
abbrev pub bad : Option Decoded
bad = decoded runeerror 1

-- A byte at an index, where it is there.
abbrev pub at : List ℕ → ℕ → (ℕ → Option Decoded) → Option Decoded
at str i k = elim (get_elem? str i) [ none ↦ none | some c ↦ k c ]

-- `c1 & Testx`, of a byte that has been xored with Tx.
unfoldable pub is_bad : ℕ → Bool
is_bad c1 = if bit_and c1 testx == 0 then false else true

-- Four characters, from c1, c2 and c3 on.
unfoldable pub four : ℕ → ℕ → ℕ → ℕ → Option Decoded
four c c1 c2 c3 =
    let l = bit_and (bit_or (shl6 (bit_or (shl6 (bit_or (shl6 c) c1)) c2)) c3) rune4 in
    if is_bad c3
    then bad
    else if ltb c t5
    then (if leb l rune3 then bad else if ltb runemax l then bad else decoded l 4)
    else bad

unfoldable pub three : List ℕ → ℕ → ℕ → ℕ → Option Decoded
three str c c1 c2 =
    let l = bit_and (bit_or (shl6 (bit_or (shl6 c) c1)) c2) rune3 in
    if is_bad c2
    then bad
    else if ltb c t4
    then (if leb l rune2 then bad else decoded l 3)
    else at str 3 (λ b. four c c1 c2 (bit_xor b tx))

unfoldable pub two : List ℕ → ℕ → ℕ → Option Decoded
two str c c1 =
    let l = bit_and (bit_or (shl6 c) c1) rune2 in
    if is_bad c1
    then bad
    else if ltb c t3
    then (if ltb c t2 then bad else if leb l rune1 then bad else decoded l 2)
    else at str 2 (λ b. three str c c1 (bit_xor b tx))

unfoldable pub one : List ℕ → ℕ → Option Decoded
one str c = if ltb c tx then decoded c 1 else at str 1 (λ b. two str c (bit_xor b tx))

unfoldable pub chartorune : List ℕ → Option Decoded
chartorune str = at str 0 (one str)

-- The bytes stored at `str`; the number returned is their number.
unfoldable pub put_rune : ℕ → List ℕ
put_rune c =
    if leb c rune1
    then c ∷ []
    else if leb c rune2
    then bit_or t2 (shr6 c 1) ∷ bit_or tx (bit_and c maskx) ∷ []
    else if leb c rune3
    then bit_or t3 (shr6 c 2)
      ∷ bit_or tx (bit_and (shr6 c 1) maskx)
      ∷ bit_or tx (bit_and c maskx)
      ∷ []
    else bit_or t4 (shr6 c 3)
      ∷ bit_or tx (bit_and (shr6 c 2) maskx)
      ∷ bit_or tx (bit_and (shr6 c 1) maskx)
      ∷ bit_or tx (bit_and c maskx)
      ∷ []

-- What is sent for a Rune that is not negative as an `int`: one above Runemax becomes Runeerror.
abbrev pub in_range : ℕ → ℕ
in_range c = if ltb runemax c then runeerror else c

-- A Rune of 2 ^ 31 or more is a negative `c`, which is at most Rune1: its lowest byte is stored.
unfoldable pub runetochar : ℕ → List ℕ
runetochar rune = if leb (2 ^ 31) rune then rune % 256 ∷ [] else put_rune (in_range rune)

unfoldable pub runelen : ℕ → ℕ
runelen c = length (runetochar (c % 2 ^ 32))

-- A round of the loop of `runenlen`, where `c` is an `int`: a Rune of 2 ^ 31 or more is negative.
unfoldable pub rune_bytes : ℕ → ℕ
rune_bytes c =
    if leb (2 ^ 31) c || leb c rune1
    then 1
    else if leb c rune2
    then 2
    else if leb c rune3 || ltb runemax c
    then 3
    else 4

-- The list holds the `nrune` runes.
unfoldable pub runenlen : List ℕ → ℕ
runenlen [] = 0
runenlen (c ∷ cs) = rune_bytes c + runenlen cs

-- A negative `n` is as 0; true is 1. `none` is a read of an empty string.
unfoldable pub fullrune : List ℕ → ℕ → Option Bool
fullrune str zero = some false
fullrune [] (suc n) = none
fullrune (c ∷ str) (suc n) =
    if ltb c tx
    then some true
    else if ltb c t3
    then some (leb 2 (suc n))
    else if ltb c t4
    then some (leb 3 (suc n))
    else some (leb 4 (suc n))
