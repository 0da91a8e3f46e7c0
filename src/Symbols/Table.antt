-- ===== src/Symbols/Table.antt =====
-- src/kernel/symbols/symbol.c with src/kernel/elf.h: the symbol table in the kernel's ELF file, its
-- map, and the lookup of an address. What the file holds is an argument.
use visual_os.Base.{
  ℕ, zero, suc, ◌+◌, ◌*◌, ◌/◌, Bool, Option, none, some, List, [], ◌∷◌, ◌==◌, if◌then◌else◌, add64,
  mul64, sub64,
}
use visual_os.Base.Run.{ok, spins, out_of_fuel, overruns, Cmd, pure, gets, modify, ◌>>=◌, ◌>>◌}
use visual_os.Pageframe.{Pageframe, pageframe_reserve, pageframe_request_pages}
use visual_os.Paging.Attribute.{nearest_page}
use visual_os.Symbols.{
  Elf64Symbol, SymbolMap, symbol_find_fail, symbol_resolve, symbol_count, sort_loop,
}

pub record Elf64Header : Type 0 where
  pub e_ident : ℕ → ℕ
  pub e_type : ℕ
  pub e_machine : ℕ
  pub e_version : ℕ
  pub e_entry : ℕ
  pub e_phoff : ℕ
  pub e_shoff : ℕ
  pub e_flags : ℕ
  pub e_ehsize : ℕ
  pub e_phentsize : ℕ
  pub e_phnum : ℕ
  pub e_shentsize : ℕ
  pub e_shnum : ℕ
  pub e_shstrndx : ℕ

pub record Elf64SectionHeader : Type 0 where
  pub sh_name : ℕ
  pub sh_type : ℕ
  pub sh_flags : ℕ
  pub sh_addr : ℕ
  pub sh_offset : ℕ
  pub sh_size : ℕ
  pub sh_link : ℕ
  pub sh_info : ℕ
  pub sh_addralign : ℕ
  pub sh_entsize : ℕ

abbrev pub section_header_type_symtab : ℕ
section_header_type_symtab = 2

abbrev pub section_header_type_strtab : ℕ
section_header_type_strtab = 3

-- The file at `kernel_header`: its header, the section headers, and the symbols from an address on.
pub record KernelFile : Type 0 where
  pub address : ℕ
  pub header : Elf64Header
  pub sections : ℕ → Elf64SectionHeader
  pub symbols : ℕ → ℕ → Elf64Symbol

pub record SymbolTableInformation : Type 0 where
  pub section_headers : ℕ
  pub section_headers_num : ℕ
  pub symbol_entries : ℕ
  pub symbol_entries_num : ℕ
  pub symbol_strings : ℕ
  pub symbol_strings_size : ℕ
  pub section_strings : ℕ
  pub section_strings_size : ℕ
  pub symbol_map : ℕ
  pub symbol_map_num : ℕ

-- `map` is the memory from `symbol_map` on.
pub record SymbolState : Type 0 where
  pub pageframe : Pageframe
  pub table : SymbolTableInformation
  pub map : ℕ → SymbolMap

abbrev in_pageframe : {A : Type 0} → Cmd Pageframe A → Cmd SymbolState A
in_pageframe m s = elim (m s.pageframe) [
  | ok a t ↦ ok a (record s { pageframe = t })
  | spins ↦ spins
  | out_of_fuel ↦ out_of_fuel
  | overruns ↦ overruns
]

unfoldable pub pageframe_reserve_size : (physical_address size : ℕ) → Cmd Pageframe (Unit {0})
unfolding nearest_page
pageframe_reserve_size physical_address size =
    pageframe_reserve physical_address (nearest_page size)

unfoldable pub found_symbols : KernelFile → Elf64SectionHeader → Cmd SymbolState (Unit {0})
unfolding pageframe_reserve_size
found_symbols file section_header = do
  let symbol_table = add64 file.address section_header.sh_offset
  in_pageframe (pageframe_reserve_size symbol_table section_header.sh_size)
  modify (λ s. record s {
    table = record s.table {
      symbol_entries = symbol_table;
      symbol_entries_num = section_header.sh_size / section_header.sh_entsize;
    };
  })

unfoldable pub found_strings :
    KernelFile → (is_section_strings : Bool) → Elf64SectionHeader → Cmd SymbolState (Unit {0})
unfolding pageframe_reserve_size
found_strings file is_section_strings section_header = do
  let string_table = add64 file.address section_header.sh_offset
  in_pageframe (pageframe_reserve_size string_table section_header.sh_size)
  modify (λ s. record s {
    table =
        if is_section_strings
        then record s.table {
          section_strings = string_table;
          section_strings_size = section_header.sh_size;
        }
        else record s.table {
          symbol_strings = string_table;
          symbol_strings_size = section_header.sh_size;
        };
  })

-- The loop over the section headers, from header `i` on.
unfoldable pub sections_loop : (rounds i : ℕ) → KernelFile → Cmd SymbolState (Unit {0})
unfolding found_symbols found_strings
sections_loop zero i file = pure tt
sections_loop (suc rounds) i file = do
  let section_header = file.sections i
  if section_header.sh_type == section_header_type_symtab
      then found_symbols file section_header
      else if section_header.sh_type == section_header_type_strtab
      then found_strings file (file.header.e_shstrndx == i) section_header
      else pure tt
  sections_loop rounds (i + 1) file

-- The entries of the symbol table from entry `i` on.
unfoldable pub symbols_from : (rounds i : ℕ) → (ℕ → Elf64Symbol) → List Elf64Symbol
symbols_from zero i entries = []
symbols_from (suc rounds) i entries = entries i ∷ symbols_from rounds (i + 1) entries

-- `sizeof(struct SymbolMap)`
abbrev pub symbol_map_size : ℕ
symbol_map_size = 16

unfoldable pub sort_symbols : List Elf64Symbol → Cmd SymbolState (Unit {0})
sort_symbols symbols s = elim (sort_loop symbols 0 0 s.map) [
  | none ↦ out_of_fuel
  | some (map, ai) ↦ ok tt (record s { map = map })
]

-- `memory` is what lies at the pages that the map is given.
unfoldable pub symbol_init : KernelFile → (memory : ℕ → ℕ → SymbolMap) → Cmd SymbolState (Unit {0})
unfolding pageframe_reserve_size sections_loop symbols_from sort_symbols
symbol_init file memory = do
  let section_headers = add64 file.address file.header.e_shoff
  in_pageframe (pageframe_reserve_size file.address file.header.e_ehsize)
  in_pageframe
      (pageframe_reserve_size section_headers (file.header.e_shnum * file.header.e_shentsize))
  modify (λ s. record s {
    table = record s.table {
      section_headers = section_headers;
      section_headers_num = file.header.e_shnum;
    };
  })
  sections_loop file.header.e_shnum 0 file
  symbols ←
      gets (λ s. symbols_from s.table.symbol_entries_num 0 (file.symbols s.table.symbol_entries))
  symbol_map ←
      in_pageframe
        (pageframe_request_pages (nearest_page (mul64 (symbol_count symbols) symbol_map_size)))
  modify (λ s. record s { map = memory symbol_map })
  sort_symbols symbols
  modify (λ s. record s {
    table = record s.table { symbol_map = symbol_map; symbol_map_num = symbol_count symbols };
  })

-- The names of the symbol and of its section, if there are some; the second is written only for a
-- caller that asks for it.
unfoldable pub symbol_lookup :
    KernelFile → (kernel_offset address : ℕ) → Cmd SymbolState (Option (ℕ × ℕ))
symbol_lookup file kernel_offset address s =
    elim (symbol_resolve s.map s.table.symbol_map_num (sub64 address kernel_offset)) [
      | none ↦ out_of_fuel
      | some map_index ↦
          let symbol = file.symbols s.table.symbol_entries (s.map map_index).symbol_index in
          ok
            (if map_index == symbol_find_fail
              then none
              else if symbol.st_name == 0
              then none
              else some (
                add64 s.table.symbol_strings symbol.st_name,
                add64 s.table.section_strings (file.sections symbol.st_shndx).sh_name,
              ))
            s
    ]
