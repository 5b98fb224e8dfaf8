-- ===== src/Rune/Canonical.antt =====
-- `chartorune` accepts the shortest form alone.
use native.Mathlib.Decide.{dec_lt}
use Prim.Native.Nat.{bit_xor}
use drawterm_android.Base.{
  [], none, some, refl, ◌∷◌, List, ℕ, Option, ◌<◌, ◌≤◌, inr, ◌-◌, ◌≡◌, Bool-cases, arith, ◌*◌, ◌⊎◌,
  inl, length, ◌+◌, ◌%◌, ◌++◌, drop, ◌^◌, ◌/◌, All, lt→ltb, le→ltb,
}
use drawterm_android.Rune.{
  at, one, two, three, four, tx, runemax, runeerror, Decoded, decoded, put_rune, is_bad, chartorune,
}
use drawterm_android.Rune.Bits.{is_bad_byte, xor_byte, join2, join3, join4}
use drawterm_android.Rune.RoundTrip.{put1, put2, put3, put4}

-- The string begins with the form of the decoded rune, or the answer is the error rune.
abbrev pub Canonical : List ℕ → Option Decoded → Type 0
Canonical str none = Unit
Canonical str (some d) =
    (d ≡ record { rune = runeerror; used = 1 })
    ⊎ ((d.rune ≤ runemax)
        × (d.used ≡ length (put_rune d.rune))
        × (str ≡ put_rune d.rune ++ drop d.used str))

form1 : (c : ℕ) (rest : List ℕ) → c < 128 → Canonical (c ∷ rest) (decoded c 1)
form1 c rest h = inr (omega arith, rw (put1 c h) refl, rw (put1 c h) refl)

form2 :
    (c b1 : ℕ) (rest : List ℕ) (l : ℕ)
    → 192 ≤ c
    → c < 224
    → 128 ≤ b1
    → b1 < 192
    → l ≡ (c * 64 + (b1 - 128)) % 2 ^ 11
    → 128 ≤ l
    → Canonical (c ∷ b1 ∷ rest) (decoded l 2)
form2 c b1 rest l c0 c1 h k e low =
    let p = put2 l low (omega arith) in
    let x : 192 + l / 64 ≡ c = omega arith in
    let y : 128 + l % 64 ≡ b1 = omega arith in inr (omega arith, rw p refl, rw p (cc (x, y)))

form3 :
    (c b1 b2 : ℕ) (rest : List ℕ) (l : ℕ)
    → 224 ≤ c
    → c < 240
    → 128 ≤ b1
    → b1 < 192
    → 128 ≤ b2
    → b2 < 192
    → l ≡ ((c * 64 + (b1 - 128)) * 64 + (b2 - 128)) % 2 ^ 16
    → 2048 ≤ l
    → Canonical (c ∷ b1 ∷ b2 ∷ rest) (decoded l 3)
form3 c b1 b2 rest l c0 c1 h k h2 k2 e low =
    let p = put3 l low (omega arith) in
    let x : 224 + l / 4096 ≡ c = omega arith in
    let y : 128 + l / 64 % 64 ≡ b1 = omega arith in
    let z : 128 + l % 64 ≡ b2 = omega arith in inr (omega arith, rw p refl, rw p (cc (x, y, z)))

form4 :
    (c b1 b2 b3 : ℕ) (rest : List ℕ) (l : ℕ)
    → 240 ≤ c
    → c < 248
    → 128 ≤ b1
    → b1 < 192
    → 128 ≤ b2
    → b2 < 192
    → 128 ≤ b3
    → b3 < 192
    → l ≡ (((c * 64 + (b1 - 128)) * 64 + (b2 - 128)) * 64 + (b3 - 128)) % 2 ^ 21
    → 65536 ≤ l
    → l ≤ runemax
    → Canonical (c ∷ b1 ∷ b2 ∷ b3 ∷ rest) (decoded l 4)
form4 c b1 b2 b3 rest l c0 c1 h k h2 k2 h3 k3 e low high =
    let p = put4 l low high in
    let w : 240 + l / 262144 ≡ c = omega arith in
    let x : 128 + l / 4096 % 64 ≡ b1 = omega arith in
    let y : 128 + l / 64 % 64 ≡ b2 = omega arith in
    let z : 128 + l % 64 ≡ b3 = omega arith in inr (omega arith, rw p refl, rw p (cc (w, x, y, z)))

four-Canonical :
    (c b1 b2 b3 : ℕ) (rest : List ℕ)
    → 240 ≤ c
    → 128 ≤ b1
    → b1 < 192
    → 128 ≤ b2
    → b2 < 192
    → b3 < 256
    → Canonical (c ∷ b1 ∷ b2 ∷ b3 ∷ rest) (four c (b1 - 128) (b2 - 128) (bit_xor b3 tx))
unfolding four
four-Canonical c b1 b2 b3 rest c0 h k h2 k2 byte = elim (Bool-cases (is_bad (bit_xor b3 tx))) [
  | inl no_good ↦ rw no_good (inl refl)
  | inr good ↦
      let (h3, k3) = is_bad_byte b3 byte good in
      let x = xor_byte b3 h3 k3 in
      rw (good, x)
        (ground (
          arith,
          join4 c (b1 - 128) (b2 - 128) (b3 - 128) (omega arith) (omega arith) (omega arith),
          form4 c b1 b2 b3 rest
              ((((c * 64 + (b1 - 128)) * 64 + (b2 - 128)) * 64 + (b3 - 128)) % 2 ^ 21) c0,
        ))
]

abbrev IsByte : ℕ → Type 0
IsByte b = b < 256

fourth :
    (c b1 b2 : ℕ) (rest : List ℕ)
    → 240 ≤ c
    → 128 ≤ b1
    → b1 < 192
    → 128 ≤ b2
    → b2 < 192
    → All IsByte rest
    → Canonical
        (c ∷ b1 ∷ b2 ∷ rest)
        (at (c ∷ b1 ∷ b2 ∷ rest) 3 (λ b. four c (b1 - 128) (b2 - 128) (bit_xor b tx)))
fourth c b1 b2 [] c0 h k h2 k2 bytes = tt
fourth c b1 b2 (b3 ∷ rest) c0 h k h2 k2 bytes = four-Canonical c b1 b2 b3 rest c0 h k h2 k2 bytes.0

three-Canonical :
    (c b1 b2 : ℕ) (rest : List ℕ)
    → 224 ≤ c
    → 128 ≤ b1
    → b1 < 192
    → b2 < 256
    → All IsByte rest
    → Canonical (c ∷ b1 ∷ b2 ∷ rest) (three (c ∷ b1 ∷ b2 ∷ rest) c (b1 - 128) (bit_xor b2 tx))
unfolding three
three-Canonical c b1 b2 rest c0 h k byte bytes = elim (Bool-cases (is_bad (bit_xor b2 tx))) [
  | inl no_good ↦ rw no_good (inl refl)
  | inr good ↦
      let (h2, k2) = is_bad_byte b2 byte good in
      let l = ((c * 64 + (b1 - 128)) * 64 + (b2 - 128)) % 2 ^ 16 in
      rw (good, xor_byte b2 h2 k2)
        (elim (dec_lt c 240) [
          | yes small ↦ rw (lt→ltb c 240 small) (
              ground (
                arith,
                join3 c (b1 - 128) (b2 - 128) (omega arith) (omega arith),
                form3 c b1 b2 rest l c0 small,
              ))
          | no large ↦
              rw (le→ltb c 240 (omega arith)) (fourth c b1 b2 rest (omega arith) h k h2 k2 bytes)
        ])
]

third :
    (c b1 : ℕ) (rest : List ℕ)
    → 224 ≤ c
    → 128 ≤ b1
    → b1 < 192
    → All IsByte rest
    → Canonical
        (c ∷ b1 ∷ rest)
        (at (c ∷ b1 ∷ rest) 2 (λ b. three (c ∷ b1 ∷ rest) c (b1 - 128) (bit_xor b tx)))
third c b1 [] c0 h k bytes = tt
third c b1 (b2 ∷ rest) c0 h k bytes = three-Canonical c b1 b2 rest c0 h k bytes.0 bytes.1

two-Canonical :
    (c b1 : ℕ) (rest : List ℕ)
    → b1 < 256
    → All IsByte rest
    → Canonical (c ∷ b1 ∷ rest) (two (c ∷ b1 ∷ rest) c (bit_xor b1 tx))
unfolding two
two-Canonical c b1 rest byte bytes = elim (Bool-cases (is_bad (bit_xor b1 tx))) [
  | inl no_good ↦ rw no_good (inl refl)
  | inr good ↦
      let (h, k) = is_bad_byte b1 byte good in
      let l = (c * 64 + (b1 - 128)) % 2 ^ 11 in
      rw (good, xor_byte b1 h k)
        (elim (dec_lt c 224) [
          | yes small ↦
              rw (lt→ltb c 224 small)
                (ground (arith, join2 c (b1 - 128) (omega arith), form2 c b1 rest l))
          | no large ↦ rw (le→ltb c 224 (omega arith)) (third c b1 rest (omega arith) h k bytes)
        ])
]

second :
    (c : ℕ) (rest : List ℕ)
    → All IsByte rest
    → Canonical (c ∷ rest) (at (c ∷ rest) 1 (λ b. two (c ∷ rest) c (bit_xor b tx)))
second c [] bytes = tt
second c (b1 ∷ rest) bytes = two-Canonical c b1 rest bytes.0 bytes.1

-- Of any bytes, `chartorune` either gives the error rune and one byte, or a rune within Runemax
-- whose form, as `runetochar` stores it, the string begins with, and the length of that form:
-- no rune has a second form that is accepted.
pub chartorune-Canonical : (str : List ℕ) → All IsByte str → Canonical str (chartorune str)
unfolding chartorune one
chartorune-Canonical [] bytes = tt
chartorune-Canonical (c ∷ rest) bytes = elim (dec_lt c 128) [
  | yes small ↦ rw (lt→ltb c 128 small) (form1 c rest small)
  | no large ↦ rw (le→ltb c 128 (omega arith)) (second c rest bytes.1)
]
