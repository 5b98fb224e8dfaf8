-- ===== src/Draw/Tests.antt =====
-- The theorems on rectangles at concrete inputs.
use drawterm_android.Base.{◌≡◌, ◌&&◌, ◌⊎◌, true, false, some, refl}
use drawterm_android.Draw.{pos, negsuc, pt, rect, Rectangle, ptinrect, rectclip}
use drawterm_android.Draw.Move.{int, point, rectangle, addpt, rectaddpt}
use drawterm_android.Draw.Clip.{rectclip-ptinrect}

abbrev window : Rectangle
window = rect (negsuc 4) (pos 0) (pos 20) (pos 10)

abbrev screen : Rectangle
screen = rect (pos 0) (pos 0) (pos 16) (pos 16)

rectclip-ptinrect_example :
    (((rectclip window screen).0 ≡ true)
      × (ptinrect (pt (pos 3) (pos 4)) ((rectclip window screen).1)
          ≡ (ptinrect (pt (pos 3) (pos 4)) window && ptinrect (pt (pos 3) (pos 4)) screen)))
    ⊎ (((rectclip window screen).0 ≡ false)
        × ((rectclip window screen).1 ≡ window)
        × ((ptinrect (pt (pos 3) (pos 4)) window && ptinrect (pt (pos 3) (pos 4)) screen) ≡ false))
rectclip-ptinrect_example = rectclip-ptinrect window screen (pt (pos 3) (pos 4))

moved_window : rectaddpt window (pt (pos 5) (pos 1)) ≡ some (rect (pos 0) (pos 1) (pos 25) (pos 11))
unfolding rectaddpt rectangle addpt point int
moved_window = refl
