-- ===== src/Draw/Move.antt =====
-- Moving points and rectangles: the sums of libdraw/arith.c. A signed overflow is not defined in C;
-- it is `none`.
use drawterm_android.Base.{
  suc, ◌+◌, ◌-◌, ◌^◌, ltb, Bool, true, if◌then◌else◌, Option, none, some, ◌≡◌, ◌&&◌, arith, refl,
}
use drawterm_android.Draw.{ℤ, pos, negsuc, Point, Rectangle, pt, rpt}

abbrev pub addz : ℤ → ℤ → ℤ
addz (pos a) (pos b) = pos (a + b)
addz (pos a) (negsuc b) = if ltb b a then pos (a - suc b) else negsuc (b - a)
addz (negsuc a) (pos b) = if ltb a b then pos (b - suc a) else negsuc (a - b)
addz (negsuc a) (negsuc b) = negsuc (suc (a + b))

abbrev pub subz : ℤ → ℤ → ℤ
subz (pos a) (pos b) = if ltb a b then negsuc (b - a - 1) else pos (a - b)
subz (pos a) (negsuc b) = pos (a + suc b)
subz (negsuc a) (pos b) = negsuc (a + b)
subz (negsuc a) (negsuc b) = if ltb b a then negsuc (a - b - 1) else pos (b - a)

abbrev pub is_int : ℤ → Bool
is_int (pos a) = ltb a (2 ^ 31)
is_int (negsuc a) = ltb a (2 ^ 31)

unfoldable pub int : ℤ → Option ℤ
int z = if is_int z then some z else none

unfoldable pub point : Option ℤ → Option ℤ → Option Point
point none y = none
point (some x) none = none
point (some x) (some y) = some (pt x y)

unfoldable pub rectangle : Option Point → Option Point → Option Rectangle
rectangle none max = none
rectangle (some min) none = none
rectangle (some min) (some max) = some (rpt min max)

unfoldable pub addpt : Point → Point → Option Point
addpt a b = point (int (addz (a.x) (b.x))) (int (addz (a.y) (b.y)))

unfoldable pub subpt : Point → Point → Option Point
subpt a b = point (int (subz (a.x) (b.x))) (int (subz (a.y) (b.y)))

unfoldable pub insetrect : Rectangle → ℤ → Option Rectangle
insetrect r n = rectangle (addpt (r.min) (pt n n)) (subpt (r.max) (pt n n))

unfoldable pub rectsubpt : Rectangle → Point → Option Rectangle
rectsubpt r p = rectangle (subpt (r.min) p) (subpt (r.max) p)

unfoldable pub rectaddpt : Rectangle → Point → Option Rectangle
rectaddpt r p = rectangle (addpt (r.min) p) (addpt (r.max) p)

sub-add : (a b : ℤ) → subz (addz a b) b ≡ a
sub-add (pos a) (pos b) = ground arith
sub-add (pos a) (negsuc b) = ground arith
sub-add (negsuc a) (pos b) = ground arith
sub-add (negsuc a) (negsuc b) = ground arith

-- Both coordinates of a point are of the type `int`.
abbrev pub is_point : Point → Bool
is_point p = is_int (p.x) && is_int (p.y)

pub int-some : (z : ℤ) → is_int z ≡ true → int z ≡ some z
unfolding int
int-some z h = rw h refl

moved_point : (u v : ℤ) (q : Point) → point (int u) (int v) ≡ some q → q ≡ pt u v
unfolding point int
moved_point u v q h = ground arith

moved :
    (r : Rectangle) (m n : Option Point)
    → rectangle m n ≡ some r
    → (m ≡ some (r.min)) × (n ≡ some (r.max))
unfolding rectangle
moved r m n h = ground arith

subpt-addpt : (a p q : Point) → is_point a ≡ true → addpt a p ≡ some q → subpt q p ≡ some a
unfolding addpt subpt point
subpt-addpt a p q h k =
    let e = moved_point (addz (a.x) (p.x)) (addz (a.y) (p.y)) q k in
    rw
      (
        e,
        sub-add (a.x) (p.x),
        sub-add (a.y) (p.y),
        int-some (a.x) (ground arith),
        int-some (a.y) (ground arith),
      )
      refl

-- A rectangle of `int` coordinates that `rectaddpt` moves without an overflow is moved back by
-- `rectsubpt`.
pub rectsubpt-rectaddpt :
    (r s : Rectangle) (p : Point)
    → is_point (r.min) ≡ true
    → is_point (r.max) ≡ true
    → rectaddpt r p ≡ some s
    → rectsubpt s p ≡ some r
unfolding rectaddpt rectsubpt rectangle
rectsubpt-rectaddpt r s p h k e =
    let (low, high) = moved s _ _ e in
    rw (subpt-addpt (r.min) p (s.min) h low, subpt-addpt (r.max) p (s.max) k high) refl
