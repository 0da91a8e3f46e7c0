-- ===== src/Paging/Tests.antt =====
-- The theorems about page tables at concrete entries, tables and addresses.
use native.Mathlib.Decide.{ℕ_discrete}
use mathlib.Core.Option.{none-ne-some}
use visual_os.Base.{
  ℕ, ◌/◌, ◌%◌, ◌^◌, ◌+◌, ◌≡◌, ◌≢◌, refl, true, some, arith, if◌then◌else◌, ◌==◌, inl, inr, update,
}
use visual_os.Base.Libc.{model_libc}
use visual_os.Base.Run.{ok}
use visual_os.Atomic.{bt}
use visual_os.Bitmap.{bitmap_get}
use visual_os.Pageframe.{Pageframe, null, pageframe_request}
use visual_os.Pageframe.Request.{IsReady, Refused, pageframe_request_lem}
use visual_os.Pageframe.RequestPages.Search.{FreeBetween}
use visual_os.Paging.{
  Paging, next_level, paging_map_page, paging_set_entry_address, paging_get_entry_address,
}
use visual_os.Paging.EntryLaws.{get-set_entry_address}
use visual_os.Paging.Walk.{entry_target, enter, WellFormed}
use visual_os.Paging.Supply.{Enough-of_free}
use visual_os.Paging.NewTable.{next_level-out_of_pages}
use visual_os.Paging.Attribute.{page_directory_writable, paging_set_attribute}
use visual_os.Paging.Marked.{Attributed, paging_set_attribute-Attributed}
use visual_os.Paging.Regions.{paging_map, paging_identity_map}
use visual_os.Paging.IdentityMap.{identity_map-map}
use visual_os.Paging.Map.{Mapped, paging_map_page_lem}

get-set_entry_address_example :
    (paging_get_entry_address (paging_set_entry_address 0x8000000000001003 0x1ff) ≡ 0x1ff % 2 ^ 40)
    × (paging_set_entry_address 0x8000000000001003 0x1ff % 2 ^ 12 ≡ 0x8000000000001003 % 2 ^ 12)
    × (paging_set_entry_address 0x8000000000001003 0x1ff / 2 ^ 52 ≡ 0x8000000000001003 / 2 ^ 52)
get-set_entry_address_example = get-set_entry_address 0x8000000000001003 0x1ff (omega arith)

-- Eight pages, of which 0 and 1 are in use.
abbrev pages : Pageframe
pages = record {
  memory_total_size = 32768;
  memory_used_size = 8192;
  memory_reserved_size = 0;
  pageframemap = record { buffer = update (λ k. 0) 0 0b11000000; size = 1 };
  current_index = 2;
  mutex = 0;
}

pages-IsReady : IsReady pages
unfolding bt
pages-IsReady = record {
  valid = record {
    bytes = λ k. ground arith;
    small = omega arith;
    used_word = omega arith;
    used_pages = refl;
    reserved_word = omega arith;
    reserved_pages = refl;
    current_word = omega arith;
  };
  request_off = refl;
  lock_off = refl;
  free_off = refl;
}

pages-free : FreeBetween pages.pageframemap 2 (2 + 3)
unfolding bitmap_get
pages-free j a b = elim (ℕ_discrete j 2) [
  | yes e ↦ rw e refl
  | no n2 ↦ elim (ℕ_discrete j 3) [
    | yes e ↦ rw e refl
    | no n3 ↦ let e : j ≡ 4 = omega arith in rw e refl
  ]
]

-- An empty level 4 table in page 1.
abbrev empty : Paging
empty = record { pageframe = pages; tables = λ t i. 0; pagetable_l4 = 4096 }

abbrev empty_level : ℕ → ℕ
empty_level t = if t == 4096 then 4 else 0

enter-empty : (t i c : ℕ) → enter empty.tables t i ≢ some c
unfolding entry_target
enter-empty t i c e = none-ne-some c e

empty-WellFormed : WellFormed empty_level empty
unfolding bitmap_get
empty-WellFormed = record {
  ready = pages-IsReady;
  small = omega arith;
  words = λ t i. omega arith;
  no_large = λ t i two h. refl;
  aligned = λ t h. ground arith;
  owned = λ t h. let e : t ≡ 4096 = ground arith in rw e refl;
  child = λ t i n c l h e. absurd (enter-empty t i c e);
  tree = λ t i u j c l k h g e f. absurd (enter-empty t i c e);
}

paging_map_page_lem_example :
    Mapped empty_level empty 4096 0xffff80000020305f 0x5000
      (paging_map_page model_libc 4096 0xffff80000020305f 0x5000 empty)
paging_map_page_lem_example =
    paging_map_page_lem model_libc empty_level empty 4096 0xffff80000020305f 0x5000 empty-WellFormed
      refl (Enough-of_free 3 pages pages-IsReady (omega arith) pages-free) (omega arith)

-- The page that was mapped is made writable.
paging_set_attribute-Attributed_example :
    let mapped = paging_map_page_lem_example in
    Attributed mapped.level' mapped.after
      (paging_set_attribute 4096 0xffff80000020305f 1 page_directory_writable true mapped.after)
      4096
      0xffff80000020305f
      1
      page_directory_writable
      true
paging_set_attribute-Attributed_example =
    paging_set_attribute-Attributed paging_map_page_lem_example.level'
      paging_map_page_lem_example.after 4096 0xffff80000020305f 1 page_directory_writable true
      paging_map_page_lem_example.formed (omega arith) (omega arith) (omega arith)

identity_map-map_example :
    paging_identity_map model_libc 0x5000 2 empty
    ≡ paging_map model_libc empty.pagetable_l4 0x5000 0x5000 2 empty
identity_map-map_example = identity_map-map model_libc 0x5000 2 empty (omega arith) (omega arith)

-- The same with no page left.
abbrev full : Paging
full = record empty { pageframe = record pages { current_index = 8 } }

full-Refused : Refused full.pageframe (pageframe_request full.pageframe)
full-Refused = elim (pageframe_request_lem full.pageframe full-IsReady) [
  | inl (k, g) ↦ absurd (omega (arith, g.from, g.inside))
  | inr f ↦ f
]
  where
    full-IsReady : IsReady full.pageframe
    full-IsReady = record {
      valid = record {
        bytes = pages-IsReady.valid.bytes;
        small = omega arith;
        used_word = omega arith;
        used_pages = refl;
        reserved_word = omega arith;
        reserved_pages = refl;
        current_word = omega arith;
      };
      request_off = pages-IsReady.request_off;
      lock_off = pages-IsReady.lock_off;
      free_off = pages-IsReady.free_off;
    }

next_level-out_of_pages_example :
    (after : Paging) × (next_level model_libc 4096 7 full ≡ ok null after)
    × (enter after.tables 4096 7 ≡ some null)
next_level-out_of_pages_example =
    next_level-out_of_pages model_libc 4096 7 full (omega arith) (omega arith) full-Refused
