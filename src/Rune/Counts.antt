-- ===== src/Rune/Counts.antt =====
-- How many bytes runes take, and when a rune is whole.
use Prim.Native.Nat.{ℕ}
use drawterm_android.Base.{
  refl, some, none, [], ◌∷◌, true, List, ℕ, length, ◌++◌, ◌≡◌, arith, ◌≢◌, length-append,
}
use drawterm_android.Rune.{
  chartorune, one, two, three, four, put_rune, runetochar, rune_bytes, runenlen, fullrune,
}

-- The bytes of the runes one after the other.
abbrev pub encode : List ℕ → List ℕ
encode [] = []
encode (r ∷ rs) = runetochar r ++ encode rs

rune_bytes-length : (r : ℕ) → rune_bytes r ≡ length (runetochar r)
unfolding rune_bytes runetochar put_rune
rune_bytes-length r = ground arith

-- `runenlen` counts the bytes that `runetochar` stores for the runes one after the other.
pub runenlen-encode : (rs : List ℕ) → runenlen rs ≡ length (encode rs)
unfolding runenlen
runenlen-encode [] = refl
runenlen-encode (r ∷ rs) =
    omega (arith, length-append (runetochar r) (encode rs), rune_bytes-length r, runenlen-encode rs)

-- Where `fullrune` says that the bytes at hand are enough, `chartorune` reads none behind them.
pub fullrune-chartorune :
    (str : List ℕ) → fullrune str (length str) ≡ some true → chartorune str ≢ none
unfolding fullrune chartorune one two three four
fullrune-chartorune [] h = ground arith
fullrune-chartorune (c ∷ []) h = ground arith
fullrune-chartorune (c ∷ b1 ∷ []) h = ground arith
fullrune-chartorune (c ∷ b1 ∷ b2 ∷ []) h = ground arith
fullrune-chartorune (c ∷ b1 ∷ b2 ∷ b3 ∷ str) h = ground arith
