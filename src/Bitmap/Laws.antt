-- ===== src/Bitmap/Laws.antt =====
-- What bitmap.c promises: a bit that was set is read back, and all others stay.
use visual_os.Base.{
  ℕ, ◌*◌, ◌/◌, ◌%◌, ◌^◌, ◌≤◌, ◌<◌, ◌≡◌, Bool, true, false, arith, ◌==◌, leb, if◌then◌else◌, u64_mod,
  inl, inr, Bool-cases,
}
use visual_os.Base.Libc.{Libc}
use visual_os.Base.Bits.{zero-bit_and}
use visual_os.Bitmap.{
  Bitmap, bitmap_initialize, bitmap_adjusted_size, test_byte, bitmap_get, bitmap_set,
}
use visual_os.Bitmap.Byte.{test-put, put_byte-lt}

abbrev pub IsBytes : Bitmap → Type 0
IsBytes bitmap = (k : ℕ) → bitmap.buffer k < 256

-- `bitmap_set` succeeds exactly up to the adjusted size, and changes nothing past it.
pub bitmap_set-result :
    (bm : Bitmap) (i : ℕ) (v : Bool)
    → ((bitmap_set bm i v).1 ≡ leb i (bitmap_adjusted_size bm))
      × (bitmap_adjusted_size bm < i → (bitmap_set bm i v).0 ≡ bm)
unfolding bitmap_set
bitmap_set-result bm i v = (ground arith, λ h. ground arith)

pub bitmap_get_out : (bm : Bitmap) (i : ℕ) → bitmap_adjusted_size bm < i → bitmap_get bm i ≡ false
unfolding bitmap_get
bitmap_get_out bm i h = ground arith

-- Two indices with the same byte and the same bit are one.
same_place : (i j : ℕ) → i / 8 ≡ j / 8 → i % 8 ≡ j % 8 → i ≡ j
same_place i j p q = omega arith

-- Every bit is read back as it was last set, for an index that is in range.
pub bitmap_get-set :
    (bm : Bitmap) (i j : ℕ) (v : Bool)
    → IsBytes bm
    → i ≤ bitmap_adjusted_size bm
    → bitmap_get (bitmap_set bm i v).0 j ≡ (if i == j then v else bitmap_get bm j)
unfolding bitmap_get bitmap_set
bitmap_get-set bm i j v bytes h = elim (Bool-cases (i / 8 == j / 8)) [
  | inl e ↦
      ground (arith, test-put v (bm.buffer (i / 8)) (i % 8) (j % 8), bytes (i / 8), same_place i j)
  | inr ne ↦ ground arith
]

pub bitmap_set-IsBytes :
    (bm : Bitmap) (i : ℕ) (v : Bool) → IsBytes bm → IsBytes (bitmap_set bm i v).0
unfolding bitmap_set
bitmap_set-IsBytes bm i v bytes k =
    ground (arith, bytes k, bytes (i / 8), put_byte-lt v (bm.buffer (i / 8)) (i % 8))

pub size-bitmap_set : (bm : Bitmap) (i : ℕ) (v : Bool) → (bitmap_set bm i v).0.size ≡ bm.size
unfolding bitmap_set
size-bitmap_set bm i v = ground arith

-- Below the adjusted size only the `size` bytes of the bitmap itself are written.
pub bitmap_set-outside :
    (bm : Bitmap) (i k : ℕ) (v : Bool)
    → i < bm.size * 8
    → bm.size ≤ k
    → (bitmap_set bm i v).0.buffer k ≡ bm.buffer k
unfolding bitmap_set
bitmap_set-outside bm i k v h out = ground arith

-- After `bitmap_initialize` every bit below the adjusted size is off.
pub bitmap_get-initialize :
    (libc : Libc) (memory : ℕ → ℕ) (size i : ℕ)
    → i < size * 8
    → bitmap_get (bitmap_initialize libc memory size) i ≡ false
unfolding bitmap_get bitmap_initialize
bitmap_get-initialize libc memory size i h =
    ground (arith, libc.memset_lem memory 0 size (i / 8), zero-bit_and (0b10000000 / 2 ^ (i % 8)))

-- An index equal to the adjusted size passes the test for the range, and its bit lies in the byte
-- behind the bitmap.
pub bitmap_set-past_end :
    (bm : Bitmap)
    → IsBytes bm
    → bm.size * 8 < u64_mod
    → ((bitmap_set bm (bm.size * 8) true).1 ≡ true)
      × (test_byte ((bitmap_set bm (bm.size * 8) true).0.buffer bm.size) 0 ≡ true)
unfolding bitmap_set
bitmap_set-past_end bm bytes h =
    ground (arith, test-put true (bm.buffer bm.size) 0 0, bytes bm.size)
