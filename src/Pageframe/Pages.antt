-- ===== src/Pageframe/Pages.antt =====
-- The loops of pageframe.c over a range of pages, on the bitmap alone.
use visual_os.Base.{
  ℕ, zero, suc, ◌+◌, ◌≤◌, ◌≡◌, refl, Bool, true, ◌&&◌, arith, ◌==◌, ltb, leb, bool_eq,
  if◌then◌else◌, inl, inr, Bool-cases,
}
use visual_os.Bitmap.{Bitmap, bitmap_adjusted_size, bitmap_get, bitmap_set}
use visual_os.Bitmap.Laws.{
  IsBytes, bitmap_get-set, bitmap_set-IsBytes, size-bitmap_set, bitmap_set-result,
}
use visual_os.Pageframe.{Pageframe, pageframe_manipulate}

-- What `pageframe_manipulate` leaves in the bitmap.
pub put_page : Bitmap → ℕ → Bool → Bitmap
put_page map i v = if bool_eq (bitmap_get map i) v then map else (bitmap_set map i v).0

bool_eq_sound : (a b : Bool) → bool_eq a b ≡ true → a ≡ b
bool_eq_sound a b h = ground arith

pub bitmap_get-put :
    (map : Bitmap) (i j : ℕ) (v : Bool)
    → IsBytes map
    → i ≤ bitmap_adjusted_size map
    → bitmap_get (put_page map i v) j ≡ (if i == j then v else bitmap_get map j)
unfolding put_page
bitmap_get-put map i j v bytes h = elim (Bool-cases (bool_eq (bitmap_get map i) v)) [
  | inl e ↦ rw e (ground (arith, bool_eq_sound (bitmap_get map i) v e))
  | inr ne ↦ rw ne (bitmap_get-set map i j v bytes h)
]

pub put_page-IsBytes : (map : Bitmap) (i : ℕ) (v : Bool) → IsBytes map → IsBytes (put_page map i v)
unfolding put_page
put_page-IsBytes map i v bytes = elim (Bool-cases (bool_eq (bitmap_get map i) v)) [
  | inl e ↦ rw e bytes
  | inr ne ↦ rw ne (bitmap_set-IsBytes map i v bytes)
]

pub size-put_page : (map : Bitmap) (i : ℕ) (v : Bool) → (put_page map i v).size ≡ map.size
unfolding put_page
size-put_page map i v = ground (arith, size-bitmap_set map i v)

-- Up to the adjusted size `pageframe_manipulate` always succeeds, whatever the page's state was.
pub manipulate-put :
    (s : Pageframe) (i : ℕ) (v : Bool)
    → i ≤ bitmap_adjusted_size s.pageframemap
    → pageframe_manipulate s i v ≡ (record s { pageframemap = put_page s.pageframemap i v }, true)
unfolding pageframe_manipulate put_page
manipulate-put s i v h = ground (arith, (bitmap_set-result s.pageframemap i v).0)

-- The pages `[i, i + n)` in state `v`.
unfoldable pub fill : ℕ → ℕ → Bool → Bitmap → Bitmap
fill zero i v map = map
fill (suc n) i v map = fill n (i + 1) v (put_page map i v)

pub size-fill : (n i : ℕ) (v : Bool) (map : Bitmap) → (fill n i v map).size ≡ map.size
unfolding fill
size-fill zero i v map = refl
size-fill (suc n) i v map =
    ground (arith, size-fill n (i + 1) v (put_page map i v), size-put_page map i v)

pub fill-IsBytes : (n i : ℕ) (v : Bool) (map : Bitmap) → IsBytes map → IsBytes (fill n i v map)
unfolding fill
fill-IsBytes zero i v map bytes = bytes
fill-IsBytes (suc n) i v map bytes =
    fill-IsBytes n (i + 1) v (put_page map i v) (put_page-IsBytes map i v bytes)

-- Inside the range the pages are in state `v`, all others are as they were.
pub bitmap_get-fill :
    (n i j : ℕ) (v : Bool) (map : Bitmap)
    → IsBytes map
    → i + n ≤ bitmap_adjusted_size map + 1
    → bitmap_get (fill n i v map) j ≡ (if leb i j && ltb j (i + n) then v else bitmap_get map j)
unfolding fill
bitmap_get-fill zero i j v map bytes h = ground arith
bitmap_get-fill (suc n) i j v map bytes h = ground (
  arith,
  bitmap_get-fill n (i + 1) j v (put_page map i v) (put_page-IsBytes map i v bytes),
  bitmap_get-put map i j v bytes,
  size-put_page map i v,
)
