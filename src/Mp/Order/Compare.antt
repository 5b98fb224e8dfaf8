-- ===== src/Mp/Order/Compare.antt =====
-- mpveccmp compares the numbers.
use drawterm_android.Base.{
  ℕ, ◌+◌, ◌*◌, ◌^◌, ◌<◌, ◌≡◌, ◌∙◌, refl, ap, arith, ltb, ◌==◌, if◌then◌else◌, List, [], ◌∷◌, ℤ, pos,
  negsuc,
}
use drawterm_android.Mp.Digits.{value, IsDigits}
use drawterm_android.Mp.Order.{decided, longer, digit_order, mpveccmp}

-- The result for two numbers.
abbrev pub order : ℕ → ℕ → ℤ
order m n = if ltb m n then negsuc 0 else if ltb n m then pos 1 else pos 0

-- The higher digits decide, or else the lowest ones.
decided_order :
    (a b m n : ℕ)
    → a < 2 ^ 32
    → b < 2 ^ 32
    → decided (order m n) (order a b) ≡ order (a + 2 ^ 32 * m) (b + 2 ^ 32 * n)
unfolding decided
decided_order a b m n h k = ground (arith, h, k)

digit_order_lem : (a b : ℕ) → a < 2 ^ 32 → b < 2 ^ 32 → digit_order a b ≡ order a b
unfolding digit_order
digit_order_lem a b h k = ground (arith, h, k)

longer_above : (ds : List ℕ) → IsDigits ds → longer (pos 1) ds ≡ order (value ds) 0
unfolding longer
longer_above [] h = refl
longer_above (d ∷ ds) (p, h) =
    let e : (if d == 0 then pos 0 else pos 1) ≡ order d 0 = ground arith in
    ap (λ r. decided r (if d == 0 then pos 0 else pos 1)) (longer_above ds h)
    ∙ ap (decided (order (value ds) 0)) e
    ∙ decided_order d 0 (value ds) 0 p (omega arith)

longer_below : (ds : List ℕ) → IsDigits ds → longer (negsuc 0) ds ≡ order 0 (value ds)
unfolding longer
longer_below [] h = refl
longer_below (d ∷ ds) (p, h) =
    let e : (if d == 0 then pos 0 else negsuc 0) ≡ order 0 d = ground arith in
    ap (λ r. decided r (if d == 0 then pos 0 else negsuc 0)) (longer_below ds h)
    ∙ ap (decided (order 0 (value ds))) e
    ∙ decided_order 0 d 0 (value ds) (omega arith) p

-- mpveccmp of vectors of any lengths gives -1, 0 or 1 as the first number is below the second, equal
-- to it or above it.
pub mpveccmp_lem :
    (a b : List ℕ) → IsDigits a → IsDigits b → mpveccmp a b ≡ order (value a) (value b)
unfolding mpveccmp
mpveccmp_lem [] b h k = longer_below b k
mpveccmp_lem (x ∷ a) [] h k = longer_above (x ∷ a) h
mpveccmp_lem (x ∷ a) (y ∷ b) (p, h) (q, k) =
    ap (λ r. decided r (digit_order x y)) (mpveccmp_lem a b h k)
    ∙ ap (decided (order (value a) (value b))) (digit_order_lem x y p q)
    ∙ decided_order x y (value a) (value b) p q
