-- ===== src/Rune/Tests.antt =====
-- Runs of the UTF-8 functions, and their theorems at concrete inputs.
use drawterm_android.Base.{refl, some, [], ◌∷◌, true, arith, ◌++◌, ◌≡◌, length}
use drawterm_android.Rune.{
  decoded, chartorune, runetochar, put_rune, fullrune, in_range, is_bad, two, one,
}
use drawterm_android.Rune.RoundTrip.{chartorune-runetochar}
use drawterm_android.Rune.Canonical.{Canonical, chartorune-Canonical}

euro : runetochar 0x20ac ≡ 0xe2 ∷ 0x82 ∷ 0xac ∷ []
unfolding runetochar put_rune
euro = refl

-- 0xc0 0x80 is a long form of 0.
long_nul : chartorune (0xc0 ∷ 0x80 ∷ []) ≡ decoded 0xfffd 1
unfolding chartorune one two is_bad
long_nul = refl

chartorune-runetochar_example :
    chartorune (runetochar 0x1f600 ++ (9 ∷ []))
    ≡ decoded (in_range 0x1f600) (length (runetochar 0x1f600))
chartorune-runetochar_example = chartorune-runetochar 0x1f600 (9 ∷ []) (omega arith)

chartorune-Canonical_example :
    Canonical (0xe2 ∷ 0x82 ∷ 0xac ∷ 7 ∷ []) (chartorune (0xe2 ∷ 0x82 ∷ 0xac ∷ 7 ∷ []))
chartorune-Canonical_example = chartorune-Canonical (0xe2 ∷ 0x82 ∷ 0xac ∷ 7 ∷ []) (omega arith)

-- A negative `c` is stored as its lowest byte.
negative_rune : runetochar 0x800000e9 ≡ 0xe9 ∷ []
unfolding runetochar
negative_rune = refl

two_bytes_full : fullrune (0xc3 ∷ 0xa9 ∷ []) 2 ≡ some true
unfolding fullrune
two_bytes_full = refl
