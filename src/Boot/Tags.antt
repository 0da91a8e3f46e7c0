-- ===== src/Boot/Tags.antt =====
-- src/kernel/stivale2.c: the tag that is found in a chain, and the memory map that is copied.
use visual_os.Base.{
  ℕ, zero, suc, ◌+◌, ◌*◌, ◌≤◌, ◌<◌, ◌≡◌, ◌≢◌, refl, true, false, arith, ◌==◌, leb, ltb, ◌&&◌,
  if◌then◌else◌, u64_mod, ◌∙◌, ◌⊎◌, inl, inr, Bool-cases, List, [], ◌∷◌, ◌++◌, length, for_range,
  for_range-zero, for_range-suc, ap, le→ltb, ==_ne, ==_iff,
}
use visual_os.Base.Run.{ok}
use visual_os.Pageframe.{null, memory_page_size}
use visual_os.Paging.Attribute.{nearest_page, round_up}
use visual_os.Paging.Regions.{MemoryMapEntry, MemoryMap, memory_memorymap_max_entries}
use visual_os.Boot.Pageframes.{is_usable}
use visual_os.Boot.Stivale2.{
  Stivale2Memory, Stivale2MemoryMapEntry, Stivale2StructureTagMemoryMap, BootloaderInformation,
  identifier_memorymap, stivale2_memory_type_usable, stivale2_get_structure, stivale2_get_memorymap,
  copy_entry, memorymap_entry_of,
}

module _ (memory : Stivale2Memory) where
  -- The tags at these addresses are linked from `current` on, and the last of them links to `NULL`.
  abbrev pub Chain : (current : ℕ) → List ℕ → Type 0
  Chain current [] = current ≡ null
  Chain current (a ∷ rest) = (current ≡ a) × (a ≢ null) × Chain (memory.tag a).next rest

  abbrev pub Lacks : (identifier : ℕ) → List ℕ → Type 0
  Lacks identifier [] = Unit
  Lacks identifier (a ∷ rest) = ((memory.tag a).identifier ≢ identifier) × Lacks identifier rest

  -- `found` is the first of the tags with the identifier, or `NULL` if none has it.
  abbrev pub IsFirst : (identifier : ℕ) → List ℕ → (found : ℕ) → Type 0
  IsFirst identifier addresses found =
      ((before : List ℕ) × (after : List ℕ) × (addresses ≡ before ++ found ∷ after)
        × Lacks identifier before
        × ((memory.tag found).identifier ≡ identifier))
      ⊎ ((found ≡ null) × Lacks identifier addresses)

  IsFirst-behind :
      {identifier a found : ℕ} {rest : List ℕ}
      → (memory.tag a).identifier ≢ identifier
      → IsFirst identifier rest found
      → IsFirst identifier (a ∷ rest) found
  IsFirst-behind {a = a} ne (inl (before, after, e, lacks, has)) =
      inl (a ∷ before, after, ap (λ (l : List ℕ). a ∷ l) e, (ne, lacks), has)
  IsFirst-behind ne (inr (e, lacks)) = inr (e, (ne, lacks))

  module _ {S : Type 0} (fuel a identifier : ℕ) (s : S) (ne : a ≢ null) where
    stops_here :
        ((memory.tag a).identifier == identifier) ≡ true
        → stivale2_get_structure (suc fuel) memory a identifier s ≡ ok a s
    unfolding stivale2_get_structure
    stops_here same = rw (==_ne a null ne, same, stivale2_get_structure) refl

    goes_on :
        ((memory.tag a).identifier == identifier) ≡ false
        → stivale2_get_structure (suc fuel) memory a identifier s
          ≡ stivale2_get_structure fuel memory (memory.tag a).next identifier s
    unfolding stivale2_get_structure
    goes_on other = rw (==_ne a null ne, other, stivale2_get_structure) refl

  -- The search in a chain of fewer tags than the fuel ends, and finds the first tag.
  pub get_structure-IsFirst :
      {S : Type 0} (fuel current identifier : ℕ) (addresses : List ℕ) (s : S)
      → Chain current addresses
      → length addresses < fuel
      → (found : ℕ) × (stivale2_get_structure fuel memory current identifier s ≡ ok found s)
        × IsFirst identifier addresses found
  unfolding stivale2_get_structure
  get_structure-IsFirst zero current identifier addresses s c lt = absurd (omega arith)
  get_structure-IsFirst (suc fuel) current identifier [] s c lt = (null, rw c refl, inr (refl, tt))
  get_structure-IsFirst (suc fuel) current identifier (a ∷ rest) s (e, ne, c) lt =
      elim (Bool-cases ((memory.tag a).identifier == identifier)) [
        | inl same ↦ (
          a,
          rw e (stops_here fuel a identifier s ne same),
          inl ([], rest, refl, tt, (==_iff _ _).0 same),
        )
        | inr other ↦
            let (found, run, first) =
              get_structure-IsFirst fuel (memory.tag a).next identifier rest s c (omega arith) in
            (
              found,
              rw e (goes_on fuel a identifier s ne other ∙ run),
              IsFirst-behind (ground arith) first,
            )
      ]

-- The loop over the entries: those from `i` on are copied, all others stay.
copied :
    (stivale2_memorymap : Stivale2StructureTagMemoryMap) (rounds i j : ℕ)
    (entries : ℕ → MemoryMapEntry)
    → for_range (copy_entry stivale2_memorymap) rounds i entries j ≡ (
        if leb i j && ltb j (i + rounds)
        then memorymap_entry_of (stivale2_memorymap.entries j)
        else entries j)
unfolding copy_entry
copied m zero i j entries = rw (for_range-zero (copy_entry m) i entries) (ground arith)
copied m (suc rounds) i j entries =
    rw (for_range-suc (copy_entry m) rounds i entries) (copied m rounds (i + 1) j _ ∙ ground arith)

copied_in :
    (m : Stivale2StructureTagMemoryMap) (i : ℕ) (entries : ℕ → MemoryMapEntry)
    → i < m.entries_num
    → for_range (copy_entry m) m.entries_num 0 entries i ≡ memorymap_entry_of (m.entries i)
copied_in m i entries l = copied m m.entries_num 0 i entries ∙ ground arith

-- An entry as the kernel reads it: its pages are as many as its length needs, and it is usable
-- exactly if the bootloader says so.
pub record IsEntryOf (given : Stivale2MemoryMapEntry) (entry : MemoryMapEntry) : Type 0 where
  pub same_base : entry.physical_base ≡ given.base
  pub enough : given.length ≤ entry.num_pages * memory_page_size
  pub no_more : entry.num_pages * memory_page_size < given.length + memory_page_size
  pub usable : is_usable entry ≡ (given.type == stivale2_memory_type_usable)

memorymap_entry_of-IsEntryOf :
    (given : Stivale2MemoryMapEntry)
    → given.length + memory_page_size ≤ u64_mod
    → IsEntryOf given (memorymap_entry_of given)
unfolding memorymap_entry_of nearest_page round_up
memorymap_entry_of-IsEntryOf given h = record {
  same_base = refl;
  enough = ground arith;
  no_more = ground arith;
  usable = ground arith;
}

-- For a chain of fewer tags than the fuel, memory maps of at most 256 regions, the places that the
-- kernel's map has, and regions that end a page below 2 ^ 64 in length: stivale2_get_memorymap
-- returns, and has copied the entries of the first tag of a memory map: each has the same base, the
-- pages that its length needs, and is usable exactly if the bootloader says so; all other entries and
-- variables stay.
pub stivale2_get_memorymap-IsEntryOf :
    (memory : Stivale2Memory) (fuel tags : ℕ) (addresses : List ℕ) (s : BootloaderInformation)
    → Chain memory tags addresses
    → length addresses < fuel
    → ((a : ℕ) → (memory.memorymap a).entries_num ≤ memory_memorymap_max_entries)
    → ((a i : ℕ) → ((memory.memorymap a).entries i).length + memory_page_size < u64_mod)
    → (found : ℕ) × (map : MemoryMap) × IsFirst memory identifier_memorymap addresses found
      × (stivale2_get_memorymap fuel memory tags s ≡ ok tt (record s { memorymap = map }))
      × (map.entries_num ≡ (memory.memorymap found).entries_num)
      × ((i : ℕ)
          → i < map.entries_num
          → IsEntryOf ((memory.memorymap found).entries i) (map.entries i))
      × ((i : ℕ)
          → map.entries_num ≤ i
          → i < memory_memorymap_max_entries
          → map.entries i ≡ s.memorymap.entries i)
unfolding stivale2_get_memorymap
stivale2_get_memorymap-IsEntryOf memory fuel tags addresses s c lt room h =
    let (found, run, first) =
      get_structure-IsFirst memory fuel tags identifier_memorymap addresses s c lt in
    let m = memory.memorymap found in
    (
      found,
      _,
      first,
      rw (run, le→ltb _ _ (room found)) refl,
      refl,
      λ i l.
          rw (copied_in m i s.memorymap.entries l)
            (memorymap_entry_of-IsEntryOf (m.entries i) (omega (arith, h found i))),
      λ i l b. copied m m.entries_num 0 i s.memorymap.entries ∙ ground arith,
    )
