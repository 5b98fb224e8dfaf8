-- ===== src/Mp/Order.antt =====
-- The order of digit vectors: libmp/mpveccmp.c.
pub mod Compare
use drawterm_android.Base.{ℕ, zero, suc, ltb, ◌==◌, if◌then◌else◌, List, [], ◌∷◌, ℤ, pos, negsuc}
use drawterm_android.Mp.{minus}

-- The loops run from the highest digit down, and return at the first that decides: what the higher
-- digits give comes first.
unfoldable pub decided : ℤ → ℤ → ℤ
decided (pos zero) next = next
decided (pos (suc n)) next = pos (suc n)
decided (negsuc n) next = negsuc n

-- The first two loops, over the digits that the other vector lacks.
unfoldable pub longer : ℤ → List ℕ → ℤ
longer sign [] = pos 0
longer sign (d ∷ ds) = decided (longer sign ds) (if d == 0 then pos 0 else sign)

-- A round of the third loop.
unfoldable pub digit_order : ℕ → ℕ → ℤ
digit_order a b = let x = minus a b in if x == 0 then pos 0 else if ltb a x then negsuc 0 else pos 1

unfoldable pub mpveccmp : List ℕ → List ℕ → ℤ
mpveccmp [] b = longer (negsuc 0) b
mpveccmp (x ∷ a) [] = longer (pos 1) (x ∷ a)
mpveccmp (x ∷ a) (y ∷ b) = decided (mpveccmp a b) (digit_order x y)
