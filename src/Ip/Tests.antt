-- ===== src/Ip/Tests.antt =====
-- The theorems on byte order at concrete inputs.
use drawterm_android.Base.{[], ◌∷◌, arith}
use drawterm_android.Ip.{hnputv, nhgetv}
use drawterm_android.Ip.Order.{Reads, read64, nhgetv-hnputv}

nhgetv-hnputv_example :
    Reads 8 hnputv nhgetv (1 ∷ 2 ∷ 3 ∷ 4 ∷ 5 ∷ 6 ∷ 7 ∷ 8 ∷ []) 0x180000000 (read64 0x180000000)
nhgetv-hnputv_example = nhgetv-hnputv 1 2 3 4 5 6 7 8 [] 0x180000000 (omega arith)
