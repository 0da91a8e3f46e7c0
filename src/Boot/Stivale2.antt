-- ===== src/Boot/Stivale2.antt =====
-- src/kernel/stivale2.c, stivale2.h and bootloader.c: what the bootloader hands over, a chain of
-- tags in memory, and what the kernel keeps of it. The kinds of tag are read by their own views of
-- memory, each at the tag's address, also at address 0 if a tag is missing.
use visual_os.Base.{
  ltb, ℕ, zero, suc, ◌+◌, Bool, true, false, List, [], ◌∷◌, ◌==◌, if◌then◌else◌, add64, sub64,
  update, for_range,
}
use visual_os.Base.Run.{ok, out_of_fuel, overruns, Cmd, pure, gets, modify, ◌>>=◌, ◌>>◌}
use visual_os.Pageframe.{null}
use visual_os.Paging.Attribute.{nearest_page}
use visual_os.Paging.Regions.{MemoryMapEntry, MemoryMap, memory_memorymap_max_entries}
use visual_os.Text.{Framebuffer}

pub record Stivale2StructureTag : Type 0 where
  pub identifier : ℕ
  pub next : ℕ

pub record Stivale2MemoryMapEntry : Type 0 where
  pub base : ℕ
  pub length : ℕ
  pub type : ℕ

pub record Stivale2StructureTagMemoryMap : Type 0 where
  pub entries_num : ℕ
  pub entries : ℕ → Stivale2MemoryMapEntry

pub record Stivale2StructureTagFramebuffer : Type 0 where
  pub base : ℕ
  pub width : ℕ
  pub height : ℕ
  pub pitch : ℕ
  pub bpp : ℕ

-- `string` is the address of the text.
pub record Stivale2Module : Type 0 where
  pub begin : ℕ
  pub end : ℕ
  pub string : ℕ

pub record Stivale2StructureModules : Type 0 where
  pub modules_num : ℕ
  pub modules : ℕ → Stivale2Module

-- `word` is the 64-bit field behind the tag.
pub record Stivale2Memory : Type 0 where
  pub tag : ℕ → Stivale2StructureTag
  pub memorymap : ℕ → Stivale2StructureTagMemoryMap
  pub framebuffer : ℕ → Stivale2StructureTagFramebuffer
  pub modules : ℕ → Stivale2StructureModules
  pub word : ℕ → ℕ

abbrev pub identifier_memorymap : ℕ
identifier_memorymap = 0x2187f79e8612de07

abbrev pub identifier_framebuffer : ℕ
identifier_framebuffer = 0x506461d2950408fa

abbrev pub identifier_modules : ℕ
identifier_modules = 0x4b6fe466aade04ce

abbrev pub identifier_rsdp : ℕ
identifier_rsdp = 0x9e1786930a375e78

abbrev pub identifier_kernel_file : ℕ
identifier_kernel_file = 0xe599d90c2975584a

abbrev pub identifier_kernel_slide : ℕ
identifier_kernel_slide = 0xee80847d01506c57

abbrev pub stivale2_memory_type_usable : ℕ
stivale2_memory_type_usable = 1

pub record Module : Type 0 where
  pub header : ℕ
  pub body : ℕ
  pub size : ℕ

abbrev pub module_signature_font : List ℕ
module_signature_font = b'f' ∷ b'o' ∷ b'n' ∷ b't' ∷ []

abbrev pub module_signature_image : List ℕ
module_signature_image = b'i' ∷ b'm' ∷ b'a' ∷ b'g' ∷ b'e' ∷ []

abbrev pub psf1_header_size : ℕ
psf1_header_size = 4

abbrev pub tga_header_size : ℕ
tga_header_size = 18

pub record BootloaderInformation : Type 0 where
  pub framebuffer : Framebuffer
  pub memorymap : MemoryMap
  pub rsdp : ℕ
  pub kernel_header : ℕ
  pub kernel_offset : ℕ
  pub font : Module
  pub image : Module

-- `while (true)`, on fuel: a chain that is a ring is followed for ever.
unfoldable pub stivale2_get_structure :
    {S : Type 0} → (fuel : ℕ) → Stivale2Memory → (current identifier : ℕ) → Cmd S ℕ
stivale2_get_structure zero memory current identifier s = out_of_fuel
stivale2_get_structure (suc fuel) memory current identifier s = elim (current == null) [
  | true ↦ ok null s
  | false ↦ elim ((memory.tag current).identifier == identifier) [
    | true ↦ ok current s
    | false ↦ stivale2_get_structure fuel memory (memory.tag current).next identifier s
  ]
]

abbrev pub framebuffer_of : Stivale2StructureTagFramebuffer → Framebuffer
framebuffer_of stivale2_framebuffer = record {
  base = stivale2_framebuffer.base;
  width = stivale2_framebuffer.width;
  height = stivale2_framebuffer.height;
  pitch = stivale2_framebuffer.pitch;
  bpp = stivale2_framebuffer.bpp;
}

unfoldable pub stivale2_get_framebuffer :
    (fuel : ℕ) → Stivale2Memory → (tags : ℕ) → Cmd BootloaderInformation (Unit {0})
unfolding stivale2_get_structure
stivale2_get_framebuffer fuel memory tags = do
  found ← stivale2_get_structure fuel memory tags identifier_framebuffer
  modify (λ s. record s { framebuffer = framebuffer_of (memory.framebuffer found) })

-- `MEMORY_TYPE_USABLE ? ... : ...` takes its first branch, the Boolean as an `enum MemoryType`.
unfoldable pub memorymap_entry_of : Stivale2MemoryMapEntry → MemoryMapEntry
unfolding nearest_page
memorymap_entry_of stivale2_memorymap_entry = record {
  physical_base = stivale2_memorymap_entry.base;
  num_pages = nearest_page stivale2_memorymap_entry.length;
  type = if stivale2_memorymap_entry.type == stivale2_memory_type_usable then 1 else 0;
}

-- One round of the loop over the entries.
unfoldable pub copy_entry :
    Stivale2StructureTagMemoryMap → ℕ → (ℕ → MemoryMapEntry) → ℕ → MemoryMapEntry
copy_entry stivale2_memorymap i entries =
    update entries i (memorymap_entry_of (stivale2_memorymap.entries i))

-- Without a test of their number in the code, more entries than the map has places for are written
-- behind it.
unfoldable pub stivale2_get_memorymap :
    (fuel : ℕ) → Stivale2Memory → (tags : ℕ) → Cmd BootloaderInformation (Unit {0})
unfolding stivale2_get_structure copy_entry
stivale2_get_memorymap fuel memory tags = do
  found ← stivale2_get_structure fuel memory tags identifier_memorymap
  let stivale2_memorymap = memory.memorymap found
  let entries_num = stivale2_memorymap.entries_num
  if ltb memory_memorymap_max_entries entries_num then (λ s. overruns) else pure tt
  modify (λ s. record s {
    memorymap = record {
      entries = for_range (copy_entry stivale2_memorymap) entries_num 0 s.memorymap.entries;
      entries_num = entries_num;
    };
  })

-- `strcmp` of the C library compares the signature with the text at an address.
module _ (strcmp : (signature : List ℕ) → (string : ℕ) → ℕ) where
  -- The loop over the modules from module `i` on; the module that was written, and whether there
  -- was one.
  unfoldable pub modules_loop :
      (rounds i : ℕ)
      → Stivale2StructureModules
      → Module
      → (signature : List ℕ) → (header_size : ℕ) → Module × Bool
  modules_loop zero i stivale2_modules m signature header_size = (m, false)
  modules_loop (suc rounds) i stivale2_modules m signature header_size =
      let stivale2_module = stivale2_modules.modules i in
      elim (strcmp signature stivale2_module.string == 0) [
        | false ↦ modules_loop rounds (i + 1) stivale2_modules m signature header_size
        | true ↦ (
          record {
            header = stivale2_module.begin;
            body = add64 stivale2_module.begin header_size;
            size = sub64 stivale2_module.end stivale2_module.begin;
          },
          true,
        )
      ]

  unfoldable pub stivale2_get_module :
      {S : Type 0}
      → (fuel : ℕ) → Stivale2Memory
      → (tags : ℕ) → Module
      → (signature : List ℕ) → (header_size : ℕ) → Cmd S (Module × Bool)
  unfolding stivale2_get_structure modules_loop
  stivale2_get_module fuel memory tags m signature header_size = do
    found ← stivale2_get_structure fuel memory tags identifier_modules
    let stivale2_modules = memory.modules found
    pure (modules_loop stivale2_modules.modules_num 0 stivale2_modules m signature header_size)

  unfoldable pub stivale2_init :
      (fuel : ℕ) → Stivale2Memory → (tags : ℕ) → Cmd BootloaderInformation (Unit {0})
  unfolding stivale2_get_framebuffer stivale2_get_memorymap stivale2_get_module
  stivale2_init fuel memory tags = do
    stivale2_get_framebuffer fuel memory tags
    stivale2_get_memorymap fuel memory tags
    rsdp ← stivale2_get_structure fuel memory tags identifier_rsdp
    modify (λ s. record s { rsdp = memory.word rsdp })
    file ← stivale2_get_structure fuel memory tags identifier_kernel_file
    modify (λ s. record s { kernel_header = memory.word file })
    slide ← stivale2_get_structure fuel memory tags identifier_kernel_slide
    modify (λ s. record s { kernel_offset = memory.word slide })
    font ← gets (λ s. s.font)
    (font', _) ← stivale2_get_module fuel memory tags font module_signature_font psf1_header_size
    modify (λ s. record s { font = font' })
    image ← gets (λ s. s.image)
    (image', _) ← stivale2_get_module fuel memory tags image module_signature_image tga_header_size
    modify (λ s. record s { image = image' })

unfoldable pub bootloader_get_info : BootloaderInformation → BootloaderInformation
bootloader_get_info s = s
