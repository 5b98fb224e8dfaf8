-- ===== src/Draw.antt =====
-- Points and rectangles: include/draw.h, libdraw/arith.c and libdraw/rectclip.c. A coordinate is an
-- integer. The functions here compare and copy coordinates; the sums are in the child Move.
pub mod Alpha
pub mod Clip
pub mod Move
mod Tests
use drawterm_android.Base.{
  ℤ, pos, negsuc, ltz, lez, eqz, ℕ, ◌+◌, ◌*◌, ◌/◌, ◌%◌, ◌^◌, ltb, leb, ◌==◌, ◌&&◌, Bool, true,
  false, if◌then◌else◌,
}

pub record Point : Type 0 where
  pub x : ℤ
  pub y : ℤ

pub record Rectangle : Type 0 where
  pub min : Point
  pub max : Point

abbrev pub pt : ℤ → ℤ → Point
pt x y = record { x = x; y = y }

abbrev pub rpt : Point → Point → Rectangle
rpt min max = record { min = min; max = max }

abbrev pub rect : ℤ → ℤ → ℤ → ℤ → Rectangle
rect x y bx by = rpt (pt x y) (pt bx by)

unfoldable pub eqpt : Point → Point → Bool
eqpt p q = eqz (p.x) (q.x) && eqz (p.y) (q.y)

unfoldable pub eqrect : Rectangle → Rectangle → Bool
eqrect r s =
    eqz (r.min.x) (s.min.x)
    && eqz (r.max.x) (s.max.x)
    && eqz (r.min.y) (s.min.y)
    && eqz (r.max.y) (s.max.y)

unfoldable pub rect_x_rect : Rectangle → Rectangle → Bool
rect_x_rect r s =
    ltz (r.min.x) (s.max.x)
    && ltz (s.min.x) (r.max.x)
    && ltz (r.min.y) (s.max.y)
    && ltz (s.min.y) (r.max.y)

unfoldable pub rectinrect : Rectangle → Rectangle → Bool
rectinrect r s =
    lez (s.min.x) (r.min.x)
    && lez (r.max.x) (s.max.x)
    && lez (s.min.y) (r.min.y)
    && lez (r.max.y) (s.max.y)

unfoldable pub ptinrect : Point → Rectangle → Bool
ptinrect p r =
    lez (r.min.x) (p.x) && ltz (p.x) (r.max.x) && lez (r.min.y) (p.y) && ltz (p.y) (r.max.y)

-- `if(a < b) a = b;` and `if(a > b) a = b;`
abbrev pub raise : ℤ → ℤ → ℤ
raise a b = if ltz a b then b else a

abbrev pub lower : ℤ → ℤ → ℤ
lower a b = if ltz b a then b else a

unfoldable pub canonrect : Rectangle → Rectangle
canonrect r =
    let swap_x = ltz (r.max.x) (r.min.x) in
    let swap_y = ltz (r.max.y) (r.min.y) in
    rect (if swap_x then r.max.x else r.min.x) (if swap_y then r.max.y else r.min.y)
      (if swap_x then r.min.x else r.max.x) (if swap_y then r.min.y else r.max.y)

-- What `*r1` is afterwards.
unfoldable pub combinerect : Rectangle → Rectangle → Rectangle
combinerect r1 r2 =
    rect (lower (r1.min.x) (r2.min.x)) (lower (r1.min.y) (r2.min.y)) (raise (r1.max.x) (r2.max.x))
      (raise (r1.max.y) (r2.max.y))

-- What is returned and what `*rp` is afterwards.
unfoldable pub rectclip : Rectangle → Rectangle → Bool × Rectangle
rectclip rp b =
    if rect_x_rect rp b
    then (
      true,
      rect (raise (rp.min.x) (b.min.x)) (raise (rp.min.y) (b.min.y)) (lower (rp.max.x) (b.max.x))
          (lower (rp.max.y) (b.max.y)),
    )
    else (false, rp)
