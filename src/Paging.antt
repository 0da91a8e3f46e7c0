-- ===== src/Paging.antt =====
-- src/kernel/memory/paging.c and paging.h: the four-level page tables of x86_64. The memory of the
-- tables is a function of a table's physical address and an index; it is kept apart from the
-- memory of the allocator's bitmap.
mod Entry
pub mod EntryLaws
pub mod Walk
pub mod Supply
pub mod Entered
pub mod NewTable
pub mod Level
pub mod LastEntry
pub mod Map
pub mod Attribute
pub mod SetBit
pub mod AttributeLaws
pub mod Marked
pub mod Regions
pub mod IdentityMap
mod Tests
use visual_os.Base.{
  ℕ, ◌+◌, ◌-◌, ◌*◌, ◌/◌, ◌%◌, ◌^◌, Bool, true, false, not, bit_or, ltb, ◌==◌, ◌&&◌, ◌||◌,
  if◌then◌else◌, u64_mod, add64, mul64, update, for_range, zero, suc,
}
use visual_os.Base.Libc.{Libc}
use visual_os.Base.Run.{Run, ok, spins, out_of_fuel, overruns, Cmd, pure, gets, modify, ◌>>=◌, ◌>>◌}
use visual_os.Pageframe.{Pageframe, memory_page_size, pageframe_request}
pub use Entry.{PageLevelIndexes}
unfoldable pub use Entry.{
  paging_get_indexes, paging_set_entry_address, paging_get_entry_address, get_bit, set_bit,
}

abbrev pub page_directory_present : ℕ
page_directory_present = 0

pub record Paging : Type 0 where
  pub pageframe : Pageframe
  pub tables : ℕ → ℕ → ℕ
  -- `s_pagetable_l4`
  pub pagetable_l4 : ℕ

-- A call of the page frame allocator.
abbrev pub in_pageframe : {A : Type 0} → Cmd Pageframe A → Cmd Paging A
in_pageframe m s = elim (m s.pageframe) [
  | ok a t ↦ ok a (record s { pageframe = t })
  | spins ↦ spins
  | out_of_fuel ↦ out_of_fuel
  | overruns ↦ overruns
]

-- `table->entries[index] = entry`
abbrev pub put_entry : (ℕ → ℕ → ℕ) → ℕ → ℕ → ℕ → ℕ → ℕ → ℕ
put_entry tables table index entry = update tables table (update (tables table) index entry)

module _ (libc : Libc) where
  -- A requested and cleared table, entered into `entry` at an index of a table.
  unfoldable pub new_table : (table index entry : ℕ) → Cmd Paging ℕ
  new_table table index entry = do
    fresh ← in_pageframe pageframe_request
    modify (λ s. record s {
      tables = update s.tables fresh (libc.memset_words (s.tables fresh) memory_page_size);
    })
    modify (λ s. record s {
      tables =
          put_entry s.tables table index
            (bit_or (paging_set_entry_address entry (fresh / 2 ^ 12)) (2 ^ page_directory_present));
    })
    pure fresh

  -- One level of the walk in `paging_map_page`: the table that the entry points to, which is made if
  -- the entry is not present.
  unfoldable pub next_level : (table index : ℕ) → Cmd Paging ℕ
  next_level table index = do
    entry ← gets (λ s. s.tables table index)
    if get_bit entry page_directory_present
        then pure (paging_get_entry_address entry * 2 ^ 12 % u64_mod)
        else new_table table index entry

  unfoldable pub paging_map_page :
      (pagetable_l4 virtual_address physical_address : ℕ) → Cmd Paging (Unit {0})
  paging_map_page pagetable_l4 virtual_address physical_address = do
    let indexes = paging_get_indexes virtual_address
    pagetable_l3 ← next_level pagetable_l4 indexes.l4_i
    pagetable_l2 ← next_level pagetable_l3 indexes.l3_i
    pagetable_l1 ← next_level pagetable_l2 indexes.l2_i
    entry ← gets (λ s. s.tables pagetable_l1 indexes.l1_i)
    modify (λ s. record s {
      tables = put_entry s.tables pagetable_l1 indexes.l1_i (
          bit_or (paging_set_entry_address entry (physical_address / 2 ^ 12))
            (2 ^ page_directory_present));
    })

unfoldable pub paging_get_pagetable_l4 : Paging → ℕ
paging_get_pagetable_l4 s = s.pagetable_l4
