-- ===== src/Mp/Tests.antt =====
-- The theorems on vectors of digits at concrete inputs.
use drawterm_android.Base.{
  ◌+◌, ◌*◌, ◌≡◌, ℕ, List, [], ◌∷◌, arith, take, length, if◌then◌else◌, ltb, ◌^◌, ◌/◌, ◌-◌,
}
use drawterm_android.Mp.Order.{mpveccmp}
use drawterm_android.Mp.Order.Compare.{order, mpveccmp_lem}
use drawterm_android.Mp.Division.{mpdigdiv}
use drawterm_android.Mp.Division.Quotient.{mpdigdiv_lem}
use drawterm_android.Mp.{mpvecadd, mpvecsub, mpvecdigmuladd, mpvecdigmulsub}
use drawterm_android.Mp.Digits.{value}
use drawterm_android.Mp.Sum.{Holds, mpvecadd-value, mpvecsub-value}
use drawterm_android.Mp.Difference.{Takes, mpvecdigmulsub-value}
use drawterm_android.Mp.Product.{mpvecdigmuladd-value}

abbrev big : List ℕ
big = 4294967295 ∷ 4294967295 ∷ []

abbrev one_digit : List ℕ
one_digit = 2 ∷ []

abbrev room : List ℕ
room = 7 ∷ 7 ∷ 7 ∷ 7 ∷ []

mpvecadd-value_example : Holds 3 (value big + value one_digit) room (mpvecadd big one_digit room)
mpvecadd-value_example =
    mpvecadd-value big one_digit room (omega arith) (omega arith) (omega arith) (omega arith)

mpvecsub-value_example :
    (v : ℕ) × Holds 2 v room (mpvecsub big one_digit room) × (v + value one_digit ≡ value big)
mpvecsub-value_example =
    mpvecsub-value big one_digit room (omega arith) (omega arith) (omega arith) (omega arith)
      (omega arith)

mpvecdigmuladd-value_example :
    Holds 3
      (value (take (length big) room) + 4294967295 * value big)
      room
      (mpvecdigmuladd big 4294967295 room)
mpvecdigmuladd-value_example =
    mpvecdigmuladd-value big 4294967295 room (omega arith) (omega arith) (omega arith) (omega arith)

mpvecdigmulsub-value_example :
    Takes 3 (4294967295 * value big) (value (take 3 room)) room (mpvecdigmulsub big 4294967295 room)
mpvecdigmulsub-value_example =
    mpvecdigmulsub-value big 4294967295 room (omega arith) (omega arith) (omega arith) (omega arith)

mpdigdiv_lem_example :
    mpdigdiv 2 7 0x80000001
    ≡ (if ltb 2 0x80000001 then (2 * 2 ^ 32 + 7) / 0x80000001 else 2 ^ 32 - 1)
mpdigdiv_lem_example = mpdigdiv_lem 2 7 0x80000001 (omega arith) (omega arith) (omega arith)

mpveccmp_lem_example :
    mpveccmp (5 ∷ 1 ∷ []) (7 ∷ 1 ∷ 0 ∷ []) ≡ order (value (5 ∷ 1 ∷ [])) (value (7 ∷ 1 ∷ 0 ∷ []))
mpveccmp_lem_example =
    mpveccmp_lem (5 ∷ 1 ∷ []) (7 ∷ 1 ∷ 0 ∷ []) (omega arith, (omega arith, tt))
      (omega arith, (omega arith, (omega arith, tt)))
