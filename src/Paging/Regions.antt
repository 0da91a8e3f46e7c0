-- ===== src/Paging/Regions.antt =====
-- src/kernel/memory/paging.c: the maps of several pages, and the tables that the kernel starts with.
-- What the linker and the bootloader know is an argument.
use visual_os.Base.{
  ℕ, zero, suc, ◌+◌, ◌-◌, ◌*◌, ◌/◌, true, false, ◌==◌, ◌&&◌, leb, ltb, if◌then◌else◌, add64, mul64,
  sign_extend, update,
}
use visual_os.Base.Libc.{Libc}
use visual_os.Base.Run.{out_of_fuel, Cmd, pure, gets, modify, ◌>>=◌, ◌>>◌}
use visual_os.Pageframe.{memory_page_size, pageframe_request}
use visual_os.Paging.{Paging, in_pageframe, paging_map_page}
use visual_os.Paging.Attribute.{nearest_page, paging_set_writable, paging_set_cache_size}

pub record MemoryMapEntry : Type 0 where
  pub physical_base : ℕ
  pub num_pages : ℕ
  pub type : ℕ

-- `MEMORY_MEMORYMAP_MAX_ENTRIES`
abbrev pub memory_memorymap_max_entries : ℕ
memory_memorymap_max_entries = 256

-- `entries` has this many places: what the function is behind them is not part of the map.
pub record MemoryMap : Type 0 where
  pub entries : ℕ → MemoryMapEntry
  pub entries_num : ℕ

abbrev pub memory_type_usable : ℕ
memory_type_usable = 1

abbrev pub page_pat_uncached : ℕ
page_pat_uncached = 0

-- The symbols of the linker: where the kernel lies.
pub record KernelLayout : Type 0 where
  pub physical_start : ℕ
  pub physical_end : ℕ
  pub writable_physical_start : ℕ
  pub writable_physical_end : ℕ
  pub virtual_base : ℕ

module _ (libc : Libc) where
  -- The loop of `paging_map`, from page `i` on. Its index is an `int`, for fewer than 2 ^ 31 pages, and
  -- so is the product with the page's size, which passes the largest `int` from page 2 ^ 19 on.
  unfoldable pub map_loop :
      (rounds i pagetable_l4 virtual_address physical_address : ℕ) → Cmd Paging (Unit {0})
  map_loop zero i pagetable_l4 virtual_address physical_address = pure tt
  map_loop (suc rounds) i pagetable_l4 virtual_address physical_address = do
    let offset = sign_extend (i * memory_page_size)
    paging_map_page libc pagetable_l4 (add64 virtual_address offset) (add64 physical_address offset)
    map_loop rounds (i + 1) pagetable_l4 virtual_address physical_address

  unfoldable pub paging_map :
      (pagetable_l4 virtual_address physical_address pages : ℕ) → Cmd Paging (Unit {0})
  unfolding map_loop
  paging_map pagetable_l4 virtual_address physical_address pages =
      map_loop pages 0 pagetable_l4 virtual_address physical_address

  -- The loop of `paging_identity_map`, on fuel: for a range that ends within a page of 2 ^ 64 it does
  -- not end.
  unfoldable pub identity_loop : (fuel pagetable_l4 ptr stop : ℕ) → Cmd Paging (Unit {0})
  identity_loop zero pagetable_l4 ptr stop = λ s. out_of_fuel
  identity_loop (suc fuel) pagetable_l4 ptr stop = elim (ltb ptr stop) [
    | true ↦
        paging_map_page libc pagetable_l4 ptr ptr
        >> identity_loop fuel pagetable_l4 (add64 ptr memory_page_size) stop
    | false ↦ pure tt
  ]

  unfoldable pub paging_identity_map : (address pages : ℕ) → Cmd Paging (Unit {0})
  unfolding identity_loop
  paging_identity_map address pages = do
    pagetable_l4 ← gets (λ s. s.pagetable_l4)
    identity_loop (suc pages) pagetable_l4 address (add64 address (mul64 pages memory_page_size))

  unfoldable pub paging_identity_map_size : (address size : ℕ) → Cmd Paging (Unit {0})
  unfolding paging_identity_map nearest_page
  paging_identity_map_size address size = paging_identity_map address (nearest_page size)

  -- The loop over the kernel's pages.
  unfoldable pub kernel_loop : (fuel ptr : ℕ) → KernelLayout → Cmd Paging (Unit {0})
  kernel_loop zero ptr kernel = λ s. out_of_fuel
  kernel_loop (suc fuel) ptr kernel = elim (ltb ptr kernel.physical_end) [
    | false ↦ pure tt
    | true ↦ do
      let virtual_address = add64 ptr kernel.virtual_base
      pagetable_l4 ← gets (λ s. s.pagetable_l4)
      paging_map_page libc pagetable_l4 virtual_address ptr
      modify (λ s.
          if leb kernel.writable_physical_start ptr && ltb ptr kernel.writable_physical_end
          then paging_set_writable virtual_address 1 s
          else s)
      kernel_loop fuel (add64 ptr memory_page_size) kernel
  ]

  -- The loop over the regions of memory, from region `i` on.
  unfoldable pub regions_loop : (rounds i : ℕ) → MemoryMap → Cmd Paging (Unit {0})
  regions_loop zero i memorymap = pure tt
  regions_loop (suc rounds) i memorymap =
      let entry = memorymap.entries i in
      elim (entry.type == memory_type_usable) [
        | false ↦ regions_loop rounds (i + 1) memorymap
        | true ↦ do
          paging_identity_map entry.physical_base entry.num_pages
          modify (paging_set_writable entry.physical_base entry.num_pages)
          regions_loop rounds (i + 1) memorymap
      ]

  unfoldable pub paging_init : KernelLayout → MemoryMap → Cmd Paging (Unit {0})
  unfolding kernel_loop regions_loop paging_identity_map_size
  paging_init kernel memorymap = do
    fresh ← in_pageframe pageframe_request
    modify (λ s. record s {
      pagetable_l4 = fresh;
      tables = update s.tables fresh (libc.memset_words (s.tables fresh) memory_page_size);
    })
    kernel_loop ((kernel.physical_end - kernel.physical_start) / memory_page_size + 2)
        kernel.physical_start kernel
    regions_loop memorymap.entries_num 0 memorymap
    total ← gets (λ s. s.pageframe.memory_total_size)
    paging_identity_map_size 0 total

-- `pitch * height` is an `int`, for a framebuffer of fewer than 2 ^ 31 bytes.
unfoldable pub paging_init_pat : (base pitch height : ℕ) → Paging → Paging
paging_init_pat base pitch height = paging_set_cache_size base (pitch * height) page_pat_uncached
