-- ===== src/Rune/RoundTrip.antt =====
-- `chartorune` reads back what `runetochar` stores.
use native.Mathlib.Decide.{dec_lt}
use Prim.Native.Nat.{ℕ}
use drawterm_android.Base.{
  [], ◌∷◌, ℕ, List, ◌≡◌, ◌≤◌, ◌<◌, ◌+◌, le→ltb, ◌/◌, ◌%◌, arith, lt→ltb, ◌*◌, ◌++◌, length, ◌∙◌, ap,
  ◌^◌, gt→leb,
}
use drawterm_android.Rune.{
  runemax, in_range, decoded, chartorune, one, two, three, four, put_rune, runetochar,
}
use drawterm_android.Rune.Bits.{is_good, join2, join3, join4, head2, head3, head4, next_byte}

-- The steps of the reader on a continuation byte `128 + m`.
one_next :
    (c m : ℕ) (rest : List ℕ)
    → 128 ≤ c
    → m < 64
    → one (c ∷ (128 + m) ∷ rest) c ≡ two (c ∷ (128 + m) ∷ rest) c m
unfolding one
one_next c m rest h k = rw (le→ltb c 128 h, (is_good m k).0)

two_next :
    (c m n : ℕ) (b1 : ℕ) (rest : List ℕ)
    → 224 ≤ c
    → m < 64
    → n < 64
    → two (c ∷ b1 ∷ (128 + n) ∷ rest) c m ≡ three (c ∷ b1 ∷ (128 + n) ∷ rest) c m n
unfolding two
two_next c m n b1 rest h k l = rw ((is_good m k).1, le→ltb c 224 h, (is_good n l).0)

three_next :
    (c m n o : ℕ) (b1 b2 : ℕ) (rest : List ℕ)
    → 240 ≤ c
    → n < 64
    → o < 64
    → three (c ∷ b1 ∷ b2 ∷ (128 + o) ∷ rest) c m n ≡ four c m n o
unfolding three
three_next c m n o b1 b2 rest h k l = rw ((is_good n k).1, le→ltb c 240 h, (is_good o l).0)

-- What is read from the forms of one to four bytes.
read1 : (r : ℕ) (rest : List ℕ) → r < 128 → chartorune (r ∷ rest) ≡ decoded r 1
unfolding chartorune one
read1 r rest h = rw (lt→ltb r 128 h)

read2 :
    (q m : ℕ) (rest : List ℕ)
    → q < 32
    → m < 64
    → 128 ≤ q * 64 + m
    → chartorune ((192 + q) ∷ (128 + m) ∷ rest) ≡ decoded (q * 64 + m) 2
unfolding chartorune
read2 q m rest h k low =
    one_next (192 + q) m rest (omega arith) k
    ∙ (unfold two in ground (arith, (is_good m k).1, join2 (192 + q) m k))

read3 :
    (q m n : ℕ) (rest : List ℕ)
    → q < 16
    → m < 64
    → n < 64
    → 2048 ≤ (q * 64 + m) * 64 + n
    → chartorune ((224 + q) ∷ (128 + m) ∷ (128 + n) ∷ rest) ≡ decoded ((q * 64 + m) * 64 + n) 3
unfolding chartorune
read3 q m n rest h k l low =
    one_next (224 + q) m ((128 + n) ∷ rest) (omega arith) k
    ∙ two_next (224 + q) m n (128 + m) rest (omega arith) k l
    ∙ (unfold three in ground (arith, (is_good n l).1, join3 (224 + q) m n k l))

read4 :
    (q m n o : ℕ) (rest : List ℕ)
    → q < 8
    → m < 64
    → n < 64
    → o < 64
    → 65536 ≤ ((q * 64 + m) * 64 + n) * 64 + o
    → ((q * 64 + m) * 64 + n) * 64 + o ≤ runemax
    → chartorune ((240 + q) ∷ (128 + m) ∷ (128 + n) ∷ (128 + o) ∷ rest)
      ≡ decoded (((q * 64 + m) * 64 + n) * 64 + o) 4
unfolding chartorune
read4 q m n o rest h k l j low high =
    one_next (240 + q) m ((128 + n) ∷ (128 + o) ∷ rest) (omega arith) k
    ∙ two_next (240 + q) m n (128 + m) ((128 + o) ∷ rest) (omega arith) k l
    ∙ three_next (240 + q) m n o (128 + m) (128 + n) rest (omega arith) l j
    ∙ (unfold four in ground (arith, (is_good o j).1, join4 (240 + q) m n o k l j))

-- What is stored for a rune of each range.
pub put1 : (r : ℕ) → r < 128 → put_rune r ≡ r ∷ []
unfolding put_rune
put1 r h = ground arith

pub put2 : (r : ℕ) → 128 ≤ r → r < 2048 → put_rune r ≡ (192 + r / 64) ∷ (128 + r % 64) ∷ []
unfolding put_rune
put2 r h k = ground (arith, head2 (r / 64) (omega arith), next_byte r)

pub put3 :
    (r : ℕ)
    → 2048 ≤ r
    → r < 65536
    → put_rune r ≡ (224 + r / 4096) ∷ (128 + r / 64 % 64) ∷ (128 + r % 64) ∷ []
unfolding put_rune
put3 r h k = ground (arith, head3 (r / 4096) (omega arith), next_byte (r / 64), next_byte r)

pub put4 :
    (r : ℕ)
    → 65536 ≤ r
    → r ≤ runemax
    → put_rune r
      ≡ (240 + r / 262144) ∷ (128 + r / 4096 % 64) ∷ (128 + r / 64 % 64) ∷ (128 + r % 64) ∷ []
unfolding put_rune
put4 r h k =
    ground (
      arith,
      head4 (r / 262144) (omega arith),
      next_byte (r / 4096),
      next_byte (r / 64),
      next_byte r,
    )

pub data Width (r : ℕ) : Type 0 where
  width1 : r < 128 → Width r
  width2 : 128 ≤ r → r < 2048 → Width r
  width3 : 2048 ≤ r → r < 65536 → Width r
  width4 : 65536 ≤ r → r ≤ runemax → Width r

pub width : (r : ℕ) → r ≤ runemax → Width r
width r h = elim (dec_lt r 128) [
  | yes a ↦ width1 a
  | no a ↦ elim (dec_lt r 2048) [
    | yes b ↦ width2 (omega arith) b
    | no b ↦ elim (dec_lt r 65536) [
      | yes c ↦ width3 (omega arith) c
      | no c ↦ width4 (omega arith) h
    ]
  ]
]

chartorune-put_rune :
    (r : ℕ) (rest : List ℕ)
    → Width r
    → chartorune (put_rune r ++ rest) ≡ decoded r (length (put_rune r))
chartorune-put_rune r rest (width1 h) = rw (put1 r h) (read1 r rest h)
chartorune-put_rune r rest (width2 h k) =
    let e : r / 64 * 64 + r % 64 ≡ r = omega arith in
    rw (put2 r h k) (
      read2 (r / 64) (r % 64) rest (omega arith) (omega arith) (omega arith)
      ∙ ap (λ t. decoded t 2) e)
chartorune-put_rune r rest (width3 h k) =
    let e : (r / 4096 * 64 + r / 64 % 64) * 64 + r % 64 ≡ r = omega arith in
    rw (put3 r h k) (
      read3 (r / 4096) (r / 64 % 64) (r % 64) rest (omega arith) (omega arith) (omega arith)
        (omega arith)
      ∙ ap (λ t. decoded t 3) e)
chartorune-put_rune r rest (width4 h k) =
    let e : ((r / 262144 * 64 + r / 4096 % 64) * 64 + r / 64 % 64) * 64 + r % 64 ≡ r =
      omega arith in
    rw (put4 r h k) (
      read4 (r / 262144) (r / 4096 % 64) (r / 64 % 64) (r % 64) rest (omega arith) (omega arith)
        (omega arith) (omega arith) (omega arith) (omega arith)
      ∙ ap (λ t. decoded t 4) e)

in_range-le : (r : ℕ) → in_range r ≤ runemax
in_range-le r = ground arith

-- What `runetochar` stores for a rune below 2 ^ 31, followed by any bytes, is read back as that
-- rune, or as Runeerror where the rune is above Runemax, and all of its bytes are used.
pub chartorune-runetochar :
    (r : ℕ) (rest : List ℕ)
    → r < 2 ^ 31
    → chartorune (runetochar r ++ rest) ≡ decoded (in_range r) (length (runetochar r))
unfolding runetochar
chartorune-runetochar r rest h =
    rw (gt→leb (2 ^ 31) r h)
      (chartorune-put_rune (in_range r) rest (width (in_range r) (in_range-le r)))
