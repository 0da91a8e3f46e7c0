-- ===== src/Bitmap/Tests.antt =====
-- Runs of bitmap.c, and the theorems about it at a bitmap of two bytes.
use visual_os.Base.{◌≡◌, refl, true, false, arith, update, if◌then◌else◌, ◌==◌}
use visual_os.Bitmap.{Bitmap, bitmap_get, bitmap_set}
use visual_os.Bitmap.Laws.{IsBytes, bitmap_get-set}

-- Bits 0, 2 and 15 are on; the bytes behind the bitmap are 0.
abbrev two_bytes : Bitmap
two_bytes = record { buffer = update (update (λ k. 0) 0 0b10100000) 1 1; size = 2 }

two_bytes-IsBytes : IsBytes two_bytes
two_bytes-IsBytes k = ground arith

reads :
    (bitmap_get two_bytes 2 ≡ true)
    × (bitmap_get two_bytes 3 ≡ false)
    × (bitmap_get two_bytes 15 ≡ true)
unfolding bitmap_get
reads = (refl, refl, refl)

out_of_range : bitmap_set two_bytes 17 true ≡ (two_bytes, false)
unfolding bitmap_set
out_of_range = refl

bitmap_get-set_example :
    bitmap_get (bitmap_set two_bytes 3 true).0 2
    ≡ (if ◌==◌ 3 2 then true else bitmap_get two_bytes 2)
bitmap_get-set_example = bitmap_get-set two_bytes 3 2 true two_bytes-IsBytes (omega arith)
