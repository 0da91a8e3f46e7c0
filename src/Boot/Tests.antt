-- ===== src/Boot/Tests.antt =====
-- The theorems about the start at a memory map of two regions, and a chain of two tags.
use visual_os.Base.{
  ℕ, ◌+◌, ◌-◌, ◌/◌, sub64, ◌<◌, ◌≤◌, ◌≡◌, refl, arith, ◌==◌, if◌then◌else◌, [], ◌∷◌,
}
use visual_os.Base.Libc.{model_libc}
use visual_os.Base.Run.{ok}
use visual_os.Bitmap.{Bitmap}
use visual_os.Pageframe.{Pageframe}
use visual_os.Paging.Attribute.{nearest_page, round_up}
use visual_os.Paging.Regions.{MemoryMapEntry, MemoryMap, KernelLayout}
use visual_os.Boot.Pageframes.{initial, initial_reserve_pages, pageframe_init}
use visual_os.Boot.Measure.{IsLargest, usable_from}
use visual_os.Boot.Steps.{Holds}
use visual_os.Boot.Ready.{IsMapped, in_use, pageframe_init-Holds}
use visual_os.Boot.Stivale2.{
  Stivale2Memory, Stivale2MemoryMapEntry, BootloaderInformation, Module, identifier_memorymap,
  identifier_framebuffer, stivale2_get_structure, stivale2_get_memorymap,
}
use visual_os.Boot.Tags.{
  Chain, IsFirst, IsEntryOf, get_structure-IsFirst, stivale2_get_memorymap-IsEntryOf,
}

-- 64 pages of firmware, and 960 that can be used.
abbrev firmware : MemoryMapEntry
firmware = record { physical_base = 0; num_pages = 64; type = 0 }

abbrev free_region : MemoryMapEntry
free_region = record { physical_base = 0x40000; num_pages = 960; type = 1 }

abbrev two_regions : MemoryMap
two_regions = record { entries = λ i. if i == 1 then free_region else firmware; entries_num = 2 }

-- Eight pages behind the first 256.
abbrev layout : KernelLayout
layout = record {
  physical_start = 0x100000;
  physical_end = 0x108000;
  writable_physical_start = 0x104000;
  writable_physical_end = 0x108000;
  virtual_base = 0xffffffff80000000;
}

abbrev no_bitmap : Bitmap
no_bitmap = record { buffer = λ k. 0; size = 0 }

two-IsLargest : IsLargest two_regions 1
two-IsLargest = record {
  listed = omega arith;
  usable = refl;
  most = λ j l u. ground arith;
  first = λ j l u. ground arith;
}

two-IsMapped : IsMapped model_libc (λ a. 0xa5) firmware layout two_regions no_bitmap 1 1024
unfolding nearest_page round_up
two-IsMapped = record {
  bytes = λ a. omega arith;
  largest = two-IsLargest;
  all_pages = refl;
  whole_bytes = refl;
  small = omega arith;
  usable_within = λ i u. ground arith;
  bitmap_within = omega arith;
  kernel_within = omega arith;
  first_within = omega arith;
}

pageframe_init-Holds_example :
    (t : Pageframe) × (pageframe_init model_libc
        (λ a. 0xa5)
        firmware
        layout
        two_regions
        (initial no_bitmap)
      ≡ ok tt t)
    × Holds 1024
        (nearest_page (1024 / 8) + nearest_page (sub64 0x108000 0x100000))
        (1024 - usable_from 2 0 two_regions + initial_reserve_pages)
        (in_use model_libc (λ a. 0xa5) firmware layout two_regions no_bitmap 1 1024)
        t
pageframe_init-Holds_example =
    pageframe_init-Holds model_libc (λ a. 0xa5) firmware layout two_regions no_bitmap 1 1024
      two-IsMapped

-- The framebuffer's tag at 8, and that of the memory map at 16.
abbrev given : Stivale2MemoryMapEntry
given = record { base = 0x40000; length = 5000; type = 1 }

abbrev tags_memory : Stivale2Memory
tags_memory = record {
  tag = λ a.
      if a == 8
      then record { identifier = identifier_framebuffer; next = 16 }
      else record { identifier = identifier_memorymap; next = 0 };
  memorymap = λ a. record { entries_num = 1; entries = λ i. given };
  framebuffer = λ a. record { base = 0; width = 0; height = 0; pitch = 0; bpp = 0 };
  modules =
      λ a. record { modules_num = 0; modules = λ i. record { begin = 0; end = 0; string = 0 } };
  word = λ a. 0;
}

abbrev no_module : Module
no_module = record { header = 0; body = 0; size = 0 }

abbrev information : BootloaderInformation
information = record {
  framebuffer = record { base = 0; width = 0; height = 0; pitch = 0; bpp = 0 };
  memorymap = record { entries = λ i. firmware; entries_num = 0 };
  rsdp = 0;
  kernel_header = 0;
  kernel_offset = 0;
  font = no_module;
  image = no_module;
}

chained : Chain tags_memory 8 (8 ∷ 16 ∷ [])
chained = (refl, λ e. absurd (omega arith), (refl, λ e. absurd (omega arith), refl))

get_structure-IsFirst_example :
    (found : ℕ) × (stivale2_get_structure 3 tags_memory 8 identifier_memorymap information
      ≡ ok found information)
    × IsFirst tags_memory identifier_memorymap (8 ∷ 16 ∷ []) found
get_structure-IsFirst_example =
    get_structure-IsFirst tags_memory 3 8 identifier_memorymap (8 ∷ 16 ∷ []) information chained
      (omega arith)

stivale2_get_memorymap-IsEntryOf_example :
    (found : ℕ) × (map : MemoryMap) × IsFirst tags_memory identifier_memorymap (8 ∷ 16 ∷ []) found
    × (stivale2_get_memorymap 3 tags_memory 8 information
        ≡ ok tt (record information { memorymap = map }))
    × (map.entries_num ≡ (tags_memory.memorymap found).entries_num)
    × ((i : ℕ)
        → i < map.entries_num
        → IsEntryOf ((tags_memory.memorymap found).entries i) (map.entries i))
    × ((i : ℕ) → map.entries_num ≤ i → i < 256 → map.entries i ≡ information.memorymap.entries i)
stivale2_get_memorymap-IsEntryOf_example =
    stivale2_get_memorymap-IsEntryOf tags_memory 3 8 (8 ∷ 16 ∷ []) information chained (omega arith)
      (λ a. omega arith) (λ a i. omega arith)
