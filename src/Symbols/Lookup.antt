-- ===== src/Symbols/Lookup.antt =====
-- What `symbol_lookup` finds.
use visual_os.Base.{
  ℕ, ◌^◌, ◌≤◌, ◌≡◌, refl, false, Option, none, some, ◌==◌, if◌then◌else◌, arith, add64, sub64,
}
use visual_os.Base.Run.{ok}
use visual_os.Symbols.{symbol_find_fail}
use visual_os.Symbols.Resolve.{IsSorted, IsClosest, symbol_resolve-IsClosest}
use visual_os.Symbols.Table.{KernelFile, SymbolState, symbol_lookup}

-- The names of a symbol of the file, if it has one.
abbrev pub names : KernelFile → SymbolState → (symbol_index : ℕ) → Option (ℕ × ℕ)
names file s symbol_index =
    let symbol = file.symbols s.table.symbol_entries symbol_index in
    if symbol.st_name == 0
    then none
    else some (
      add64 s.table.symbol_strings symbol.st_name,
      add64 s.table.section_strings (file.sections symbol.st_shndx).sh_name,
    )

-- For a sorted map of two symbols or more, and an address that is not below the first of them once the
-- kernel's offset is taken off: `symbol_lookup` returns the names of the last symbol that is not above
-- the address, or nothing if it has no name.
pub symbol_lookup-Closest :
    (file : KernelFile) (s : SymbolState) (kernel_offset address : ℕ)
    → 2 ≤ s.table.symbol_map_num
    → s.table.symbol_map_num ≤ 2 ^ 63
    → IsSorted s.map s.table.symbol_map_num
    → (s.map 0).address ≤ sub64 address kernel_offset
    → (i : ℕ) × (symbol_lookup file kernel_offset address s
        ≡ ok (names file s (s.map i).symbol_index) s)
      × IsClosest s.map s.table.symbol_map_num (sub64 address kernel_offset) i
unfolding symbol_lookup
symbol_lookup-Closest file s kernel_offset address two few sorted first =
    let (i, run, closest) =
      symbol_resolve-IsClosest s.map s.table.symbol_map_num (sub64 address kernel_offset) two few
        sorted first in
    let found : (i == symbol_find_fail) ≡ false = ground (arith, closest.inside) in
    (i, rw (run, found, symbol_lookup) refl, closest)
