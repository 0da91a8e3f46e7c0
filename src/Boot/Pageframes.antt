-- ===== src/Boot/Pageframes.antt =====
-- `pageframe_init` of src/kernel/memory/pageframe.c. What memory holds is an argument: its bytes, and
-- the entry that is read where `largest_primary` is still `NULL`.
use visual_os.Base.{
  ℕ, zero, suc, ◌+◌, ◌/◌, Bool, true, Option, none, some, ◌==◌, ◌&&◌, ltb, if◌then◌else◌, add64,
  sub64, mul64, for_range,
}
use visual_os.Base.Libc.{Libc}
use visual_os.Base.Run.{Cmd, pure, gets, modify, ◌>>=◌, ◌>>◌}
use visual_os.Bitmap.{Bitmap, bitmap_scale, bitmap_initialize}
use visual_os.Pageframe.{
  Pageframe, memory_page_size, pageframe_lock, pageframe_reserve, pageframe_unreserve,
}
use visual_os.Paging.Attribute.{nearest_page}
use visual_os.Paging.Regions.{MemoryMapEntry, MemoryMap, KernelLayout, memory_type_usable}

abbrev pub initial_reserve_pages : ℕ
initial_reserve_pages = 256

abbrev pub is_usable : MemoryMapEntry → Bool
is_usable entry = entry.type == memory_type_usable

abbrev pub exceeds : MemoryMap → MemoryMapEntry → Option ℕ → Bool
exceeds memorymap entry none = true
exceeds memorymap entry (some i) = ltb (memorymap.entries i).num_pages entry.num_pages

-- One round of the first loop: the index of the largest region so far, and the total size.
unfoldable pub measure_region : MemoryMap → ℕ → Option ℕ × ℕ → Option ℕ × ℕ
measure_region memorymap i (largest_primary, total_size) =
    let entry = memorymap.entries i in
    (
      (if is_usable entry && exceeds memorymap entry largest_primary
          then some i
          else largest_primary),
      add64 total_size (mul64 entry.num_pages memory_page_size),
    )

-- `largest_primary` as it is read, also where it is `NULL`.
abbrev pub region_at : MemoryMap → (at_null : MemoryMapEntry) → Option ℕ → MemoryMapEntry
region_at memorymap at_null none = at_null
region_at memorymap at_null (some i) = memorymap.entries i

-- The loop over the regions, from region `i` on.
unfoldable pub unreserve_regions : (rounds i : ℕ) → MemoryMap → Cmd Pageframe (Unit {0})
unreserve_regions zero i memorymap = pure tt
unreserve_regions (suc rounds) i memorymap = do
  let entry = memorymap.entries i
  let reserved_size = mul64 entry.num_pages memory_page_size
  if is_usable entry
      then pageframe_unreserve entry.physical_base (reserved_size / memory_page_size)
      else pure tt
  unreserve_regions rounds (i + 1) memorymap

unfoldable pub pageframe_init :
    Libc
    → (memory : ℕ → ℕ) → (at_null : MemoryMapEntry) → KernelLayout
    → MemoryMap
    → Cmd Pageframe (Unit {0})
unfolding measure_region unreserve_regions
pageframe_init libc memory at_null kernel memorymap = do
  let entries_num = memorymap.entries_num
  total ← gets (λ s. s.memory_total_size)
  let measured = for_range (measure_region memorymap) entries_num 0 (none, total)
  let total_size = measured.1
  let base = (region_at memorymap at_null measured.0).physical_base
  let size = total_size / memory_page_size / bitmap_scale
  modify (λ s. record s {
    memory_total_size = total_size;
    pageframemap = bitmap_initialize libc (λ k. memory (base + k)) size;
  })
  pageframe_reserve 0 (total_size / memory_page_size)
  unreserve_regions entries_num 0 memorymap
  pageframe_lock base (nearest_page size)
  let kernel_size = sub64 kernel.physical_end kernel.physical_start
  pageframe_lock kernel.physical_start (nearest_page kernel_size)
  pageframe_reserve 0 initial_reserve_pages

-- The static variables before the first call, with what `s_pageframemap` holds.
abbrev pub initial : Bitmap → Pageframe
initial map = record {
  memory_total_size = 0;
  memory_used_size = 0;
  memory_reserved_size = 0;
  pageframemap = map;
  current_index = 0;
  mutex = 0;
}
