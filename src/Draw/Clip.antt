-- ===== src/Draw/Clip.antt =====
-- The set of points of a rectangle, and what the operations make of it.
use drawterm_android.Base.{
  ◌≡◌, refl, ◌&&◌, Bool, true, false, if◌then◌else◌, arith, ◌⊎◌, inl, inr, Bool-cases,
}
use drawterm_android.Draw.{
  rect, ℤ, pos, negsuc, ltz, lez, Point, Rectangle, rect_x_rect, rectinrect, ptinrect, raise, lower,
  combinerect, rectclip, canonrect,
}

-- The order on one axis.
lez-raise : (a b p : ℤ) → lez (raise a b) p ≡ (lez a p && lez b p)
lez-raise (pos a) (pos b) (pos p) = ground arith
lez-raise (pos a) (pos b) (negsuc p) = ground arith
lez-raise (pos a) (negsuc b) (pos p) = ground arith
lez-raise (pos a) (negsuc b) (negsuc p) = ground arith
lez-raise (negsuc a) (pos b) (pos p) = ground arith
lez-raise (negsuc a) (pos b) (negsuc p) = ground arith
lez-raise (negsuc a) (negsuc b) (pos p) = ground arith
lez-raise (negsuc a) (negsuc b) (negsuc p) = ground arith

lez-lower : (a b p : ℤ) → lez p (lower a b) ≡ (lez p a && lez p b)
lez-lower (pos a) (pos b) (pos p) = ground arith
lez-lower (pos a) (pos b) (negsuc p) = ground arith
lez-lower (pos a) (negsuc b) (pos p) = ground arith
lez-lower (pos a) (negsuc b) (negsuc p) = ground arith
lez-lower (negsuc a) (pos b) (pos p) = ground arith
lez-lower (negsuc a) (pos b) (negsuc p) = ground arith
lez-lower (negsuc a) (negsuc b) (pos p) = ground arith
lez-lower (negsuc a) (negsuc b) (negsuc p) = ground arith

ltz-lower : (a b p : ℤ) → ltz p (lower a b) ≡ (ltz p a && ltz p b)
ltz-lower (pos a) (pos b) (pos p) = ground arith
ltz-lower (pos a) (pos b) (negsuc p) = ground arith
ltz-lower (pos a) (negsuc b) (pos p) = ground arith
ltz-lower (pos a) (negsuc b) (negsuc p) = ground arith
ltz-lower (negsuc a) (pos b) (pos p) = ground arith
ltz-lower (negsuc a) (pos b) (negsuc p) = ground arith
ltz-lower (negsuc a) (negsuc b) (pos p) = ground arith
ltz-lower (negsuc a) (negsuc b) (negsuc p) = ground arith

through : (a b p : ℤ) → lez a p ≡ true → ltz p b ≡ true → ltz a b ≡ true
through (pos a) (pos b) (pos p) h k = ground arith
through (pos a) (pos b) (negsuc p) h k = ground arith
through (pos a) (negsuc b) (pos p) h k = ground arith
through (pos a) (negsuc b) (negsuc p) h k = ground arith
through (negsuc a) (pos b) (pos p) h k = ground arith
through (negsuc a) (pos b) (negsuc p) h k = ground arith
through (negsuc a) (negsuc b) (pos p) h k = ground arith
through (negsuc a) (negsuc b) (negsuc p) h k = ground arith

swapped : (a b : ℤ) → lez (if ltz b a then b else a) (if ltz b a then a else b) ≡ true
swapped (pos a) (pos b) = ground arith
swapped (pos a) (negsuc b) = ground arith
swapped (negsuc a) (pos b) = ground arith
swapped (negsuc a) (negsuc b) = ground arith

in_order : (a b : ℤ) → lez a b ≡ true → ltz b a ≡ false
in_order (pos a) (pos b) h = ground arith
in_order (pos a) (negsuc b) h = ground arith
in_order (negsuc a) (pos b) h = ground arith
in_order (negsuc a) (negsuc b) h = ground arith

shuffle :
    (a b c d e f g h : Bool)
    → ((a && b) && (c && d) && (e && f) && (g && h)) ≡ ((a && c && e && g) && (b && d && f && h))
shuffle a b c d e f g h = ground arith

-- `combinerect` gives the smallest rectangle around two: another contains it just where it
-- contains both.
pub combinerect-least :
    (r1 r2 s : Rectangle) → rectinrect (combinerect r1 r2) s ≡ (rectinrect r1 s && rectinrect r2 s)
unfolding rectinrect combinerect
combinerect-least r1 r2 s =
    rw
      (
        lez-lower (r1.min.x) (r2.min.x) (s.min.x),
        lez-raise (r1.max.x) (r2.max.x) (s.max.x),
        lez-lower (r1.min.y) (r2.min.y) (s.min.y),
        lez-raise (r1.max.y) (r2.max.y) (s.max.y),
      )
      (search shuffle)

clipped :
    (r b : Rectangle) (p : Point)
    → ptinrect p (
        rect
          (raise (r.min.x) (b.min.x))
          (raise (r.min.y) (b.min.y))
          (lower (r.max.x) (b.max.x))
          (lower (r.max.y) (b.max.y)))
      ≡ (ptinrect p r && ptinrect p b)
unfolding ptinrect
clipped r b p =
    rw
      (
        lez-raise (r.min.x) (b.min.x) (p.x),
        ltz-lower (r.max.x) (b.max.x) (p.x),
        lez-raise (r.min.y) (b.min.y) (p.y),
        ltz-lower (r.max.y) (b.max.y) (p.y),
      )
      (search shuffle)

apart :
    (r b : Rectangle) (p : Point) → rect_x_rect r b ≡ false → (ptinrect p r && ptinrect p b) ≡ false
unfolding rect_x_rect ptinrect
apart r b p h = ground (
  arith,
  through (r.min.x) (b.max.x) (p.x),
  through (b.min.x) (r.max.x) (p.x),
  through (r.min.y) (b.max.y) (p.y),
  through (b.min.y) (r.max.y) (p.y),
)

-- Either `rectclip` returns 1, and a point is in the clipped rectangle just where it is in both,
-- or it returns 0, the rectangle stays, and no point is in both.
pub rectclip-ptinrect :
    (r b : Rectangle) (p : Point)
    → (((rectclip r b).0 ≡ true) × (ptinrect p ((rectclip r b).1) ≡ (ptinrect p r && ptinrect p b)))
      ⊎ (((rectclip r b).0 ≡ false)
          × ((rectclip r b).1 ≡ r)
          × ((ptinrect p r && ptinrect p b) ≡ false))
unfolding rectclip
rectclip-ptinrect r b p = elim (Bool-cases (rect_x_rect r b)) [
  | inl e ↦ inl (rw e (refl, clipped r b p))
  | inr e ↦ inr (rw e (refl, refl, apart r b p e))
]

-- Both sides of the rectangle are in order.
abbrev pub is_canonical : Rectangle → Bool
is_canonical r = lez (r.min.x) (r.max.x) && lez (r.min.y) (r.max.y)

canonrect-is_canonical : (r : Rectangle) → is_canonical (canonrect r) ≡ true
unfolding canonrect
canonrect-is_canonical r = rw (swapped (r.min.x) (r.max.x), swapped (r.min.y) (r.max.y)) refl

canonrect_keeps : (r : Rectangle) → is_canonical r ≡ true → canonrect r ≡ r
unfolding canonrect
canonrect_keeps r h =
    let ex : ltz (r.max.x) (r.min.x) ≡ false = in_order (r.min.x) (r.max.x) (ground arith) in
    let ey : ltz (r.max.y) (r.min.y) ≡ false = in_order (r.min.y) (r.max.y) (ground arith) in
    rw (ex, ey) refl

-- The sides of the rectangle that `canonrect` gives are in order, and a second call changes
-- nothing.
pub canonrect_canonical :
    (r : Rectangle) → (is_canonical (canonrect r) ≡ true) × (canonrect (canonrect r) ≡ canonrect r)
canonrect_canonical r =
    (canonrect-is_canonical r, canonrect_keeps (canonrect r) (canonrect-is_canonical r))
