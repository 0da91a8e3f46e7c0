-- ===== src/Paging/Attribute.antt =====
-- The attributes of pages in src/kernel/memory/paging.c: bits of the entries on the walk to a page.
use visual_os.Base.{
  ℕ, ◌*◌, ◌/◌, ◌%◌, ◌-◌, ◌^◌, Bool, true, ◌==◌, if◌then◌else◌, bit_and, u64_mod, add64, mul64,
  for_range,
}
use visual_os.Pageframe.{memory_page_size}
use visual_os.Paging.{Paging, put_entry, paging_get_indexes, paging_get_entry_address, set_bit}

abbrev pub page_directory_writable : ℕ
page_directory_writable = 1

abbrev pub page_table_writethrough : ℕ
page_table_writethrough = 3

abbrev pub page_table_nocache : ℕ
page_table_nocache = 4

abbrev pub page_table_pat : ℕ
page_table_pat = 7

-- `ROUND_UP` and `NEAREST_PAGE`, on 64 bits.
unfoldable pub round_up : (n multiple : ℕ) → ℕ
round_up n multiple = if n % multiple == 0 then n else add64 (n - n % multiple) multiple

unfoldable pub nearest_page : ℕ → ℕ
unfolding round_up
nearest_page n = round_up n memory_page_size / memory_page_size

-- The table that an entry points to, present or not.
abbrev pub table_of : ℕ → ℕ
table_of entry = paging_get_entry_address entry * 2 ^ 12 % u64_mod

-- One level of the walk: `change` is applied to the entry at an index of a table.
abbrev pub on_entry : (ℕ → ℕ) → (table index : ℕ) → (ℕ → ℕ → ℕ) → ℕ → ℕ → ℕ
on_entry change table index tables = put_entry tables table index (change (tables table index))

-- The body of the loops: `upper` is applied to the entries of the levels 4, 3 and 2 on the walk to an
-- address, and `lower` to that of level 1.
unfoldable pub on_walk :
    (upper lower : ℕ → ℕ) → (pagetable_l4 address : ℕ) → (ℕ → ℕ → ℕ) → ℕ → ℕ → ℕ
on_walk upper lower pagetable_l4 address tables =
    let indexes = paging_get_indexes address in
    let tables4 = on_entry upper pagetable_l4 indexes.l4_i tables in
    let l3 = table_of (tables4 pagetable_l4 indexes.l4_i) in
    let tables3 = on_entry upper l3 indexes.l3_i tables4 in
    let l2 = table_of (tables3 l3 indexes.l3_i) in
    let tables2 = on_entry upper l2 indexes.l2_i tables3 in
    let l1 = table_of (tables2 l2 indexes.l2_i) in on_entry lower l1 indexes.l1_i tables2

unfoldable pub paging_set_attribute :
    (pagetable_l4 virtual_address pages attribute : ℕ) → Bool → Paging → Paging
unfolding on_walk
paging_set_attribute pagetable_l4 virtual_address pages attribute enabled s =
    let change : ℕ → ℕ = λ entry. set_bit entry attribute enabled in
    record s {
      tables =
          for_range
            (λ i.
              on_walk change change pagetable_l4 (add64 virtual_address (mul64 i memory_page_size)))
            pages 0 s.tables;
    }

unfoldable pub set_mode : (mode entry : ℕ) → ℕ
set_mode mode entry =
    let bit_pat = bit_and (mode / 2 ^ 2) 1 == 1 in
    let bit_pcd = bit_and (mode / 2 ^ 1) 1 == 1 in
    let bit_pwt = bit_and (mode / 2 ^ 0) 1 == 1 in
    set_bit (set_bit (set_bit entry page_table_pat bit_pat) page_table_nocache bit_pcd)
      page_table_writethrough bit_pwt

unfoldable pub paging_set_cache : (virtual_address pages mode : ℕ) → Paging → Paging
unfolding on_walk set_mode
paging_set_cache virtual_address pages mode s = record s {
  tables =
      for_range
        (λ i.
          on_walk (λ entry. entry) (set_mode mode) s.pagetable_l4
            (add64 virtual_address (mul64 i memory_page_size)))
        pages 0 s.tables;
}

unfoldable pub paging_set_cache_size : (virtual_address size mode : ℕ) → Paging → Paging
unfolding nearest_page paging_set_cache
paging_set_cache_size virtual_address size mode =
    paging_set_cache virtual_address (nearest_page size) mode

unfoldable pub paging_set_writable : (virtual_address pages : ℕ) → Paging → Paging
unfolding paging_set_attribute
paging_set_writable virtual_address pages s =
    paging_set_attribute s.pagetable_l4 virtual_address pages page_directory_writable true s

unfoldable pub paging_set_writable_size : (virtual_address size : ℕ) → Paging → Paging
unfolding nearest_page paging_set_writable
paging_set_writable_size virtual_address size =
    paging_set_writable virtual_address (nearest_page size)
