-- ===== src/Symbols/Tests.antt =====
-- The sort and the search of symbol.c on maps of three symbols.
use visual_os.Base.{sub64, ℕ, ◌+◌, ◌-◌, ◌*◌, ◌≡◌, refl, List, [], ◌∷◌, u64_mod, update, arith}
use visual_os.Symbols.{Elf64Symbol, SymbolMap, sort_loop}
use visual_os.Symbols.Resolve.{IsSorted, IsClosest}
use visual_os.Symbols.Table.{KernelFile, SymbolState, symbol_lookup}
use visual_os.Symbols.Lookup.{names, symbol_lookup-Closest}
use visual_os.Base.Run.{ok}
use visual_os.Symbols.Sort.{Sorted, sort_loop-Sorted}

-- A symbol at every 16 bytes from 4096 on.
abbrev sixteens : ℕ → SymbolMap
sixteens k = record { address = 4096 + 16 * k; symbol_index = k }

sixteens-IsSorted : IsSorted sixteens 3
sixteens-IsSorted i j h k = omega arith

-- Every symbol has its own name in a file at 0, with no section headers.
abbrev named_file : KernelFile
named_file = record {
  address = 0;
  header = record {
    e_ident = λ k. 0;
    e_type = 2;
    e_machine = 62;
    e_version = 1;
    e_entry = 4096;
    e_phoff = 0;
    e_shoff = 0;
    e_flags = 0;
    e_ehsize = 64;
    e_phentsize = 56;
    e_phnum = 0;
    e_shentsize = 64;
    e_shnum = 0;
    e_shstrndx = 0;
  };
  sections = λ k. record {
    sh_name = 1;
    sh_type = 1;
    sh_flags = 0;
    sh_addr = 0;
    sh_offset = 0;
    sh_size = 0;
    sh_link = 0;
    sh_info = 0;
    sh_addralign = 0;
    sh_entsize = 1;
  };
  symbols = λ a k. record {
    st_name = 8 * k + 1;
    st_info = 0;
    st_other = 0;
    st_shndx = 1;
    st_value = 4096 + 16 * k;
    st_size = 16;
  };
}

abbrev three_symbols : SymbolState
three_symbols = record {
  pageframe = record {
    memory_total_size = 0;
    memory_used_size = 0;
    memory_reserved_size = 0;
    pageframemap = record { buffer = λ k. 0; size = 0 };
    current_index = 0;
    mutex = 0;
  };
  table = record {
    section_headers = 0;
    section_headers_num = 0;
    symbol_entries = 0x9000;
    symbol_entries_num = 3;
    symbol_strings = 0xa000;
    symbol_strings_size = 100;
    section_strings = 0xb000;
    section_strings_size = 100;
    symbol_map = 0xc000;
    symbol_map_num = 3;
  };
  map = sixteens;
}

symbol_lookup-Closest_example :
    (i : ℕ) × (symbol_lookup named_file 0x10000 0x11013 three_symbols
      ≡ ok (names named_file three_symbols (sixteens i).symbol_index) three_symbols)
    × IsClosest sixteens 3 (sub64 0x11013 0x10000) i
symbol_lookup-Closest_example =
    symbol_lookup-Closest named_file three_symbols 0x10000 0x11013 (omega arith) (omega arith)
      sixteens-IsSorted (omega arith)

-- The same symbols behind memory that is 0.
abbrev behind_zero : ℕ → SymbolMap
behind_zero = update sixteens (u64_mod - 1) (record { address = 0; symbol_index = 0 })

behind_zero-IsSorted : IsSorted behind_zero 3
behind_zero-IsSorted i j h k = ground arith

abbrev symbol_at : ℕ → Elf64Symbol
symbol_at value = record {
  st_name = 1;
  st_info = 0;
  st_other = 0;
  st_shndx = 1;
  st_value = value;
  st_size = 8;
}

abbrev unsorted : List Elf64Symbol
unsorted = symbol_at 300 ∷ symbol_at 0 ∷ symbol_at 100 ∷ symbol_at 200 ∷ []

abbrev zeroes : ℕ → SymbolMap
zeroes k = record { address = 0; symbol_index = 0 }

sort_loop-Sorted_example : Sorted unsorted 0 0 zeroes (sort_loop unsorted 0 0 zeroes)
sort_loop-Sorted_example =
    sort_loop-Sorted unsorted 0 0 zeroes (omega arith) (λ i j h k. omega arith) refl
