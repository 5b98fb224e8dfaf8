-- ===== src/Mnt/Tags.antt =====
-- The tags of requests: alloctag and freetag of kern/devmnt.c, on the words of `tagmask`.
pub mod Taken
use mathlib.Core.Option
use drawterm_android.Base.{
  ℕ, zero, suc, ◌+◌, ◌*◌, ◌/◌, ◌%◌, ◌^◌, ◌≤◌, ◌<◌, ◌≡◌, ◌⊎◌, ◌∙◌, inl, inr, ap, refl, ltb, ◌==◌,
  if◌then◌else◌, Bool, true, false, Bool-cases, ◌&&◌, ◌||◌, Option, none, some, List, [], ◌∷◌, ◌++◌,
  length, arith, replicate,
}

-- Bit `j` of a word, and the word with the bit set and cleared: `1<<j`, `|=` and `&= ~`.
unfoldable pub bit : ℕ → ℕ → Bool
bit zero v = v % 2 == 1
bit (suc j) v = bit j (v / 2)

unfoldable pub set_bit : ℕ → ℕ → ℕ
set_bit zero v = v / 2 * 2 + 1
set_bit (suc j) v = set_bit j (v / 2) * 2 + v % 2

unfoldable pub clear_bit : ℕ → ℕ → ℕ
clear_bit zero v = v / 2 * 2
clear_bit (suc j) v = clear_bit j (v / 2) * 2 + v % 2

-- The loop that counts `j` up, on fuel.
unfoldable pub first_clear : ℕ → ℕ → ℕ
first_clear zero v = 0
first_clear (suc k) v = let later = first_clear k (v / 2) in if v % 2 == 1 then later + 1 else 0

abbrev pub all_taken : ℕ
all_taken = 0xffffffff

-- From word `i` on; `none` is the panic.
unfoldable pub alloc_from : ℕ → List ℕ → Option (ℕ × List ℕ)
alloc_from i [] = none
alloc_from i (v ∷ vs) =
    let later = Option.map (λ (r : ℕ × List ℕ). (r.0, v ∷ r.1)) (alloc_from (i + 1) vs) in
    let j = first_clear 32 v in
    if v == all_taken then later else some (i * 32 + j, set_bit j v ∷ vs)

unfoldable pub alloctag : List ℕ → Option (ℕ × List ℕ)
alloctag ms = alloc_from 0 ms

unfoldable pub clear_in : ℕ → ℕ → List ℕ → List ℕ
clear_in i j [] = []
clear_in zero j (v ∷ vs) = clear_bit j v ∷ vs
clear_in (suc i) j (v ∷ vs) = v ∷ clear_in i j vs

unfoldable pub freetag : ℕ → List ℕ → List ℕ
freetag t ms = clear_in (t / 32) (t % 32) ms

-- `mntreset`: tag 0 and NOTAG are never given out.
unfoldable pub tags_of : ℕ → List ℕ
tags_of n = 1 ∷ (replicate n 0 ++ 0x80000000 ∷ [])

unfoldable pub reset_tags : List ℕ
reset_tags = tags_of 2046

-- Whether bit `j` of word `i` is set, and the same of a tag.
unfoldable pub used_in : ℕ → ℕ → List ℕ → Bool
used_in i j [] = false
used_in zero j (v ∷ vs) = bit j v
used_in (suc i) j (v ∷ vs) = used_in i j vs

abbrev pub used : ℕ → List ℕ → Bool
used t ms = used_in (t / 32) (t % 32) ms

abbrev pub AreWords : List ℕ → Type 0
AreWords [] = Unit
AreWords (v ∷ vs) = (v < 2 ^ 32) × AreWords vs
