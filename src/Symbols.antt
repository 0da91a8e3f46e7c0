-- ===== src/Symbols.antt =====
-- src/kernel/symbols/symbol.c and symbol.h: the search for the symbol of an address. The symbol map
-- is the memory from its address on, an entry for each index.
mod Round
pub mod Resolve
pub mod Shift
pub mod Insert
pub mod Sort
pub mod Table
pub mod Lookup
pub mod Unwind
mod Tests
use visual_os.Base.{
  ℕ, zero, suc, ◌+◌, ◌-◌, ◌/◌, Bool, true, false, ◌&&◌, Option, none, some, ltb, leb, if◌then◌else◌,
  u64_mod, List, [], ◌∷◌, ◌==◌, add64, update,
}

-- `SYMBOL_FIND_FAIL`, as a `size_t`.
abbrev pub symbol_find_fail : ℕ
symbol_find_fail = u64_mod - 1

-- `struct ELF64Symbol` of src/kernel/elf.h.
pub record Elf64Symbol : Type 0 where
  pub st_name : ℕ
  pub st_info : ℕ
  pub st_other : ℕ
  pub st_shndx : ℕ
  pub st_value : ℕ
  pub st_size : ℕ

pub record SymbolMap : Type 0 where
  pub address : ℕ
  pub symbol_index : ℕ

-- `n - 1` on a `size_t`.
abbrev pub pred64 : ℕ → ℕ
pred64 zero = u64_mod - 1
pred64 (suc n) = n

-- The `while` loop on fuel, and what follows it.
unfoldable pub resolve_loop : (fuel : ℕ) → (ℕ → SymbolMap) → (address max low high : ℕ) → Option ℕ
resolve_loop zero map address max low high = none
resolve_loop (suc fuel) map address max low high =
    let mid = add64 low high / 2 in
    elim (leb low high && leb low (pred64 max)) [
      | false ↦ some (if ltb (pred64 max) low then max else symbol_find_fail)
      | true ↦ elim (leb (map mid).address address && ltb address (map (add64 mid 1)).address) [
        | true ↦ some mid
        | false ↦ elim (ltb address (map mid).address) [
          | true ↦ resolve_loop fuel map address max low (pred64 mid)
          | false ↦ resolve_loop fuel map address max (add64 mid 1) high
        ]
      ]
    ]

-- Each round leaves fewer indexes between `low` and `high`.
unfoldable pub symbol_resolve : (ℕ → SymbolMap) → (symbol_map_num address : ℕ) → Option ℕ
symbol_resolve map symbol_map_num address =
    let max = pred64 symbol_map_num in resolve_loop (max + 1) map address max 0 max

-- The inner `while` loop of the sort, on fuel: its test `j >= 0` holds of every `size_t`. The map and
-- `j` afterwards.
unfoldable pub shift_loop : (fuel value j : ℕ) → (ℕ → SymbolMap) → Option ((ℕ → SymbolMap) × ℕ)
shift_loop zero value j map = none
shift_loop (suc fuel) value j map = elim (ltb value (map j).address) [
  | true ↦ shift_loop fuel value (pred64 j) (update map (add64 j 1) (map j))
  | false ↦ some (map, j)
]

-- The `ai` first entries are sorted, and the next one is inserted.
unfoldable pub insert_symbol : (value i ai : ℕ) → (ℕ → SymbolMap) → Option (ℕ → SymbolMap)
insert_symbol value i ai map =
    elim (elim (leb 1 ai) as (λ x. Option ((ℕ → SymbolMap) × ℕ)) [
      | true ↦ shift_loop (ai + 1) value (pred64 ai) map
      | false ↦ some (map, pred64 ai)
    ]) [
      | none ↦ none
      | some (shifted, j) ↦
          some (update shifted (add64 j 1) (record { address = value; symbol_index = i }))
    ]

-- The number of symbols that have a value.
unfoldable pub symbol_count : List Elf64Symbol → ℕ
symbol_count [] = 0
symbol_count (symbol ∷ rest) =
    if symbol.st_value == 0 then symbol_count rest else symbol_count rest + 1

-- The outer loop of the sort, from entry `i` of the symbol table on: the map, and `ai`.
unfoldable pub sort_loop :
    List Elf64Symbol → (i ai : ℕ) → (ℕ → SymbolMap) → Option ((ℕ → SymbolMap) × ℕ)
sort_loop [] i ai map = some (map, ai)
sort_loop (symbol ∷ rest) i ai map = elim (symbol.st_value == 0) [
  | true ↦ sort_loop rest (i + 1) ai map
  | false ↦ elim (insert_symbol symbol.st_value i ai map) [
    | none ↦ none
    | some inserted ↦ sort_loop rest (i + 1) (ai + 1) inserted
  ]
]
