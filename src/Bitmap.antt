-- ===== src/Bitmap.antt =====
-- src/kernel/memory/bitmap.c and bitmap.h: a map from page indices to bits. The buffer is the memory
-- from the buffer's address on, a byte for each offset; it goes on behind the `size` bytes of the
-- bitmap, as the pointer does.
mod Byte
pub mod Laws
mod Tests
use visual_os.Base.{
  ℕ, ◌-◌, ◌/◌, ◌%◌, ◌^◌, Bool, true, false, not, bit_and, bit_or, ◌==◌, ltb, if◌then◌else◌, mul64,
  update,
}
use visual_os.Base.Libc.{Libc}

abbrev pub bitmap_scale : ℕ
bitmap_scale = 8

pub record Bitmap : Type 0 where
  pub buffer : ℕ → ℕ
  pub size : ℕ

-- `memory` is what the buffer's address points to.
unfoldable pub bitmap_initialize : Libc → (ℕ → ℕ) → ℕ → Bitmap
bitmap_initialize libc memory size = record { buffer = libc.memset memory 0 size; size = size }

abbrev pub bitmap_adjusted_size : Bitmap → ℕ
bitmap_adjusted_size bitmap = mul64 bitmap.size bitmap_scale

-- `0b10000000 >> bit_index`
abbrev pub bit_selector : ℕ → ℕ
bit_selector bit_index = 0b10000000 / 2 ^ bit_index

abbrev pub test_byte : ℕ → ℕ → Bool
test_byte byte bit_index = not (bit_and byte (bit_selector bit_index) == 0)

-- `|=` with the selector or `&=` with its complement, in a byte.
abbrev pub put_byte : ℕ → ℕ → Bool → ℕ
put_byte byte bit_index value =
    if value
    then bit_or byte (bit_selector bit_index)
    else bit_and byte (255 - bit_selector bit_index)

unfoldable pub bitmap_get : Bitmap → ℕ → Bool
bitmap_get bitmap index =
    if ltb (bitmap_adjusted_size bitmap) index
    then false
    else test_byte (bitmap.buffer (index / bitmap_scale)) (index % bitmap_scale)

-- The bitmap afterwards, and what the function returns.
unfoldable pub bitmap_set : Bitmap → ℕ → Bool → Bitmap × Bool
bitmap_set bitmap index value =
    let byte_index = index / bitmap_scale in
    let byte = put_byte (bitmap.buffer byte_index) (index % bitmap_scale) value in
    if ltb (bitmap_adjusted_size bitmap) index
    then (bitmap, false)
    else (record bitmap { buffer = update bitmap.buffer byte_index byte }, true)
