-- ===== src/Rune/Text.antt =====
-- The runes of a text: libc/utflen.c and libc/utfnlen.c. The loops take fuel, of which a round uses
-- one; every round passes a byte at least, so that the length of the bytes at hand is enough.
use mathlib.Core.Option
use mathlib.Core.Path.{subst}
use drawterm_android.Base.{
  ℕ, zero, suc, ◌+◌, ◌-◌, ◌<◌, ◌≤◌, ◌≡◌, ◌⊎◌, ◌∙◌, ◌++◌, inl, inr, ap, sym, refl, ltb, ◌==◌,
  if◌then◌else◌, true, false, Option, none, some, List, [], ◌∷◌, All, length, drop, arith,
  append_assoc, drop-append, length-append, lt→ltb, le→ltb,
}
use drawterm_android.Rune.{
  runemax, tx, t3, t4, decoded, chartorune, runetochar, put_rune, in_range, fullrune,
}
use drawterm_android.Rune.RoundTrip.{
  chartorune-runetochar, Width, width, width1, width2, width3, width4, put1, put2, put3, put4,
}
use drawterm_android.Rune.Counts.{encode}

-- `none` is a read behind the bytes, or fuel that does not suffice.
unfoldable pub utflen_loop : ℕ → List ℕ → Option ℕ
utflen_loop zero s = none
utflen_loop (suc k) [] = none
utflen_loop (suc k) (c ∷ s) =
    let rest = utflen_loop k s in
    let after : Option ℕ = elim (chartorune (c ∷ s)) [
      | none ↦ none
      | some d ↦ Option.map suc (utflen_loop k (drop (d.used) (c ∷ s)))
    ] in
    if ltb c tx then (if c == 0 then some 0 else Option.map suc rest) else after

unfoldable pub utflen : List ℕ → Option ℕ
utflen s = utflen_loop (suc (length s)) s

-- `m` is `es - s`, where a negative difference is 0.
unfoldable pub utfnlen_loop : ℕ → List ℕ → ℕ → Option ℕ
utfnlen_loop k s zero = some 0
utfnlen_loop zero s (suc m) = none
utfnlen_loop (suc k) [] (suc m) = none
utfnlen_loop (suc k) (c ∷ s) (suc m) =
    let rest = utfnlen_loop k s m in
    let after : Option ℕ = elim (chartorune (c ∷ s)) [
      | none ↦ none
      | some d ↦ Option.map suc (utfnlen_loop k (drop (d.used) (c ∷ s)) (suc m - d.used))
    ] in
    if ltb c tx
    then (if c == 0 then some 0 else Option.map suc rest)
    else elim (fullrune (c ∷ s) (suc m)) [ none ↦ none | some false ↦ some 0 | some true ↦ after ]

unfoldable pub utfnlen : List ℕ → ℕ → Option ℕ
utfnlen s m = utfnlen_loop (suc (length s)) s m

-- A rune that a text may hold.
abbrev pub IsChar : ℕ → Type 0
IsChar r = (1 ≤ r) × (r ≤ runemax)

runetochar-put_rune : (r : ℕ) → r ≤ runemax → runetochar r ≡ put_rune r
unfolding runetochar
runetochar-put_rune r h = ground arith

-- The stored form is the rune itself, or begins with a byte of 128 or more.
abbrev Head : ℕ → List ℕ → Type 0
Head r s = ((r < 128) × (s ≡ r ∷ [])) ⊎ ((b : ℕ) × (bs : List ℕ) × (s ≡ b ∷ bs) × (128 ≤ b))

head_lem : (r : ℕ) → Width r → Head r (put_rune r)
head_lem r (width1 h) = inl (h, put1 r h)
head_lem r (width2 h k) = inr (_, _, put2 r h k, omega arith)
head_lem r (width3 h k) = inr (_, _, put3 r h k, omega arith)
head_lem r (width4 h k) = inr (_, _, put4 r h k, omega arith)

head : (r : ℕ) → r ≤ runemax → Head r (runetochar r)
head r h = rw (runetochar-put_rune r h) (head_lem r (width r h))

step_lem :
    (k b : ℕ) (bs rest : List ℕ) (d : ℕ)
    → 128 ≤ b
    → chartorune ((b ∷ bs) ++ rest) ≡ decoded d (length (b ∷ bs))
    → utflen_loop (suc k) ((b ∷ bs) ++ rest) ≡ Option.map suc (utflen_loop k rest)
unfolding utflen_loop
step_lem k b bs rest d h e = rw (le→ltb b 128 h, e, drop-append bs rest) refl

read_as :
    (r : ℕ) (s rest : List ℕ)
    → r ≤ runemax
    → runetochar r ≡ s
    → chartorune (s ++ rest) ≡ decoded (in_range r) (length s)
read_as r s rest h e = rw (sym e) (chartorune-runetochar r rest (omega arith))

ascii_lem :
    (k c : ℕ) (rest : List ℕ)
    → 1 ≤ c
    → c < 128
    → utflen_loop (suc k) (c ∷ rest) ≡ Option.map suc (utflen_loop k rest)
unfolding utflen_loop
ascii_lem k zero rest h l = elim h [ ]
ascii_lem k (suc c) rest h l =
    let z : (suc c == 0) ≡ false = ground arith in rw (lt→ltb (suc c) 128 l, z) refl

utflen_round :
    (k r : ℕ) (rest : List ℕ)
    → IsChar r
    → utflen_loop (suc k) (runetochar r ++ rest) ≡ Option.map suc (utflen_loop k rest)
utflen_round k r rest (low, high) = elim (head r high) [
  | inl (small, e) ↦ rw e (ascii_lem k r rest low small)
  | inr (b, bs, e, h) ↦ rw e (step_lem k b bs rest (in_range r) h (read_as r (b ∷ bs) rest high e))
]

utflen_loop_lem :
    (rs : List ℕ) (k : ℕ) (rest : List ℕ)
    → All IsChar rs
    → length rs < k
    → utflen_loop k (encode rs ++ (0 ∷ rest)) ≡ some (length rs)
unfolding utflen_loop
utflen_loop_lem rs zero rest h l = elim l [ ]
utflen_loop_lem [] (suc k) rest h l = refl
utflen_loop_lem (r ∷ rs) (suc k) rest h l =
    rw (append_assoc (runetochar r) (encode rs) (0 ∷ rest)) (
      utflen_round k r (encode rs ++ (0 ∷ rest)) (h.0)
      ∙ ap (Option.map suc) (utflen_loop_lem rs k rest (h.1) (omega arith)))

encode_long : (rs : List ℕ) → All IsChar rs → length rs ≤ length (encode rs)
encode_long [] h = omega arith
encode_long (r ∷ rs) h = omega (
  arith,
  length-append (runetochar r) (encode rs),
  encode_long rs (h.1),
  elim (head r (h.0.1)) as (λ _. 1 ≤ length (runetochar r)) [
    | inl (small, e) ↦ rw e (omega arith)
    | inr (b, bs, e, k) ↦ rw e (omega arith)
  ],
)

-- On the stored forms of runes from 1 to Runemax with a NUL behind them, `utflen` ends and counts
-- the runes, whatever follows the NUL.
pub utflen-encode :
    (rs rest : List ℕ) → All IsChar rs → utflen (encode rs ++ (0 ∷ rest)) ≡ some (length rs)
unfolding utflen
utflen-encode rs rest h =
    utflen_loop_lem rs (suc (length (encode rs ++ (0 ∷ rest)))) rest h
      (omega (arith, encode_long rs h, length-append (encode rs) (0 ∷ rest)))

-- How many bytes `fullrune` asks for behind a first byte.
abbrev width_of : ℕ → ℕ
width_of b = if ltb b tx then 1 else if ltb b t3 then 2 else if ltb b t4 then 3 else 4

full_byte : (b : ℕ) (s : List ℕ) (m : ℕ) → width_of b ≤ m → fullrune (b ∷ s) m ≡ some true
unfolding fullrune
full_byte b s zero h = ground arith
full_byte b s (suc m) h = ground arith

full_lem :
    (r : ℕ) (rest : List ℕ) (m : ℕ)
    → Width r
    → length (put_rune r) ≤ m
    → fullrune (put_rune r ++ rest) m ≡ some true
full_lem r rest m (width1 h) = rw (put1 r h) (λ l. full_byte _ _ m (ground arith))
full_lem r rest m (width2 h k) = rw (put2 r h k) (λ l. full_byte _ _ m (ground arith))
full_lem r rest m (width3 h k) = rw (put3 r h k) (λ l. full_byte _ _ m (ground arith))
full_lem r rest m (width4 h k) = rw (put4 r h k) (λ l. full_byte _ _ m (ground arith))

full_rune :
    (r : ℕ) (rest : List ℕ) (m : ℕ)
    → r ≤ runemax
    → length (runetochar r) ≤ m
    → fullrune (runetochar r ++ rest) m ≡ some true
full_rune r rest m h = rw (runetochar-put_rune r h) (full_lem r rest m (width r h))

next_lem :
    (k b : ℕ) (bs rest : List ℕ) (d m : ℕ)
    → 128 ≤ b
    → chartorune ((b ∷ bs) ++ rest) ≡ decoded d (length (b ∷ bs))
    → fullrune ((b ∷ bs) ++ rest) (suc (length bs + m)) ≡ some true
    → utfnlen_loop (suc k) ((b ∷ bs) ++ rest) (suc (length bs + m))
      ≡ Option.map suc (utfnlen_loop k rest m)
unfolding utfnlen_loop
next_lem k b bs rest d m h e f =
    let j : suc (length bs + m) - suc (length bs) ≡ m = omega arith in
    rw (le→ltb b 128 h, f, e, drop-append bs rest, j) refl

char_lem :
    (k c : ℕ) (rest : List ℕ) (m : ℕ)
    → 1 ≤ c
    → c < 128
    → utfnlen_loop (suc k) (c ∷ rest) (suc m) ≡ Option.map suc (utfnlen_loop k rest m)
unfolding utfnlen_loop
char_lem k c rest m h l = let z : (c == 0) ≡ false = ground arith in rw (lt→ltb c 128 l, z) refl

full_as :
    (r b : ℕ) (bs rest : List ℕ) (n : ℕ)
    → runetochar r ≡ b ∷ bs
    → fullrune (runetochar r ++ rest) (length (runetochar r) + n) ≡ some true
    → fullrune ((b ∷ bs) ++ rest) (suc (length bs + n)) ≡ some true
full_as r b bs rest n e h =
    let l : suc (length bs) + n ≡ suc (length bs + n) = omega arith in
    let f : fullrune ((b ∷ bs) ++ rest) (suc (length bs) + n) ≡ some true =
      subst (λ s. fullrune (s ++ rest) (length s + n) ≡ some true) e h in
    rw (sym l) f

utfnlen_round :
    (k r : ℕ) (rest : List ℕ) (n : ℕ)
    → IsChar r
    → utfnlen_loop (suc k) (runetochar r ++ rest) (length (runetochar r) + n)
      ≡ Option.map suc (utfnlen_loop k rest n)
utfnlen_round k r rest n (low, high) = elim (head r high) [
  | inl (small, e) ↦
      let one_more : 1 + n ≡ suc n = omega arith in rw (e, one_more) (char_lem k r rest n low small)
  | inr (b, bs, e, h) ↦
      let l : suc (length bs) + n ≡ suc (length bs + n) = omega arith in
      let full = full_rune r rest (length (runetochar r) + n) high (omega arith) in
      rw (e, l)
        (next_lem k b bs rest (in_range r) n h (read_as r (b ∷ bs) rest high e)
          (full_as r b bs rest n e full))
]

utfnlen_loop_lem :
    (rs : List ℕ) (k : ℕ) (rest : List ℕ)
    → All IsChar rs
    → length rs ≤ k
    → utfnlen_loop k (encode rs ++ rest) (length (encode rs)) ≡ some (length rs)
unfolding utfnlen_loop
utfnlen_loop_lem [] k rest h l = refl
utfnlen_loop_lem (r ∷ rs) zero rest h l = elim l [ ]
utfnlen_loop_lem (r ∷ rs) (suc k) rest h l =
    rw (append_assoc (runetochar r) (encode rs) rest, length-append (runetochar r) (encode rs))
      (utfnlen_round k r (encode rs ++ rest) (length (encode rs)) (h.0)
        ∙ ap (Option.map suc) (utfnlen_loop_lem rs k rest (h.1) (omega arith)))

-- On the stored forms of runes from 1 to Runemax, `utfnlen` with their length in bytes ends and
-- counts the runes, whatever follows.
pub utfnlen-encode :
    (rs rest : List ℕ)
    → All IsChar rs
    → utfnlen (encode rs ++ rest) (length (encode rs)) ≡ some (length rs)
unfolding utfnlen
utfnlen-encode rs rest h =
    utfnlen_loop_lem rs (suc (length (encode rs ++ rest))) rest h
      (omega (arith, encode_long rs h, length-append (encode rs) rest))
