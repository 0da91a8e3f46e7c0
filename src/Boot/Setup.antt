-- ===== src/Boot/Setup.antt =====
-- `setup_memory` of src/kernel/setup.c: the allocator, the kernel's page tables and the framebuffer, in
-- the order of the start. `paging_load`, which loads a control register, is left out.
use visual_os.Base.{ℕ, ◌*◌}
use visual_os.Base.Libc.{Libc}
use visual_os.Base.Run.{Cmd, modify, ◌>>◌}
use visual_os.Pageframe.{pageframe_lock}
use visual_os.Paging.{Paging, in_pageframe}
use visual_os.Paging.Attribute.{paging_set_writable_size}
use visual_os.Paging.Regions.{
  MemoryMapEntry, MemoryMap, KernelLayout, paging_init, paging_identity_map_size,
}
use visual_os.Symbols.Table.{pageframe_reserve_size}
use visual_os.Text.{Framebuffer}
use visual_os.Boot.Pageframes.{pageframe_init}

abbrev pub trampoline_target : ℕ
trampoline_target = 0x8000

abbrev pub trampoline_target_size : ℕ
trampoline_target_size = 4096

-- `pitch * height` is an `int`, for a framebuffer of fewer than 2 ^ 31 bytes. The lock of the
-- trampoline takes its size in bytes for a number of pages.
unfoldable pub setup_memory :
    Libc
    → (memory : ℕ → ℕ) → (at_null : MemoryMapEntry) → KernelLayout
    → MemoryMap
    → Framebuffer
    → (trampoline_target trampoline_target_size : ℕ) → Cmd Paging (Unit {0})
setup_memory libc memory at_null kernel memorymap framebuffer trampoline_target
      trampoline_target_size =
    do
      let framebuffer_size = framebuffer.pitch * framebuffer.height
      in_pageframe (pageframe_init libc memory at_null kernel memorymap)
      in_pageframe (pageframe_reserve_size framebuffer.base framebuffer_size)
      in_pageframe (pageframe_lock trampoline_target trampoline_target_size)
      paging_init libc kernel memorymap
      paging_identity_map_size libc framebuffer.base framebuffer_size
      modify (paging_set_writable_size framebuffer.base framebuffer_size)
