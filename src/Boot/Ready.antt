-- ===== src/Boot/Ready.antt =====
-- What pageframe_init leaves: an allocator that can be used, and which pages of it are free.
use visual_os.Base.{
  ℕ, zero, suc, ◌+◌, ◌-◌, ◌*◌, ◌/◌, ◌%◌, ◌^◌, ◌≤◌, ◌<◌, ◌≡◌, refl, Bool, true, false, not, arith,
  ◌&&◌, ◌||◌, ◌∙◌, inl, inr, Bool-cases, sub64, mul64, for_range, none,
}
use visual_os.Base.Libc.{Libc}
use visual_os.Base.Run.{ok}
use visual_os.Atomic.{bt}
use visual_os.Bitmap.{Bitmap, bitmap_initialize}
use visual_os.Bitmap.Laws.{bitmap_get-initialize}
use visual_os.Pageframe.{Pageframe, memory_page_size, pageframe_lock, pageframe_reserve}
use visual_os.Paging.Attribute.{nearest_page}
use visual_os.Paging.Regions.{MemoryMapEntry, MemoryMap, KernelLayout}
use visual_os.Boot.Pageframes.{
  initial, initial_reserve_pages, is_usable, measure_region, unreserve_regions, pageframe_init,
}
use visual_os.Boot.Measure.{pages_from, usable_from, total-pages, IsLargest, largest-found}
use visual_os.Boot.Steps.{covered, Holds, lock-Holds, reserve-Holds, unreserve-Holds}

-- Whether page `j` lies in one of the usable regions from region `i` on.
abbrev pub in_usable : (rounds i : ℕ) → MemoryMap → ℕ → Bool
in_usable zero i memorymap j = false
in_usable (suc rounds) i memorymap j =
    let entry = memorymap.entries i in
    (is_usable entry && covered entry.physical_base entry.num_pages j)
    || in_usable rounds (i + 1) memorymap j

-- The usable regions end inside `total` pages.
abbrev pub UsableWithin : ℕ → MemoryMap → Type 0
UsableWithin total memorymap =
    (i : ℕ)
    → is_usable (memorymap.entries i) ≡ true
    → (memorymap.entries i).physical_base / memory_page_size + (memorymap.entries i).num_pages
      ≤ total

Holds-taken :
    {total used used' kept kept' : ℕ} {taken taken' : ℕ → Bool} {s : Pageframe}
    → Holds total used kept taken s
    → used ≡ used'
    → kept ≡ kept'
    → ((j : ℕ) → j < total → taken j ≡ taken' j)
    → Holds total used' kept' taken' s
Holds-taken h d e same = record {
  ready = h.ready;
  pages = h.pages;
  size = h.size;
  used_size = omega (arith, h.used_size, d);
  reserved_size = omega (arith, h.reserved_size, e);
  from_zero = h.from_zero;
  page = λ j lt. h.page j lt ∙ same j lt;
}

module _ (memorymap : MemoryMap) (total used : ℕ) (small : total < 2 ^ 51)
    (within : UsableWithin total memorymap) where
  loop-Holds :
      (rounds i kept : ℕ) (taken : ℕ → Bool) (s : Pageframe)
      → Holds total used kept taken s
      → (t : Pageframe) × (unreserve_regions rounds i memorymap s ≡ ok tt t)
        × Holds total used
            (kept - usable_from rounds i memorymap)
            (λ j. not (in_usable rounds i memorymap j) && taken j)
            t
  unfolding unreserve_regions
  loop-Holds zero i kept taken s h = (s, refl, Holds-taken h refl (omega arith) (λ j lt. refl))
  loop-Holds (suc rounds) i kept taken s h = elim (Bool-cases (is_usable (memorymap.entries i))) [
    | inl usable ↦
        let fits = within i usable in
        let whole : mul64 (memorymap.entries i).num_pages memory_page_size / memory_page_size
            ≡ (memorymap.entries i).num_pages =
          omega arith in
        let (u, run, held) =
          unreserve-Holds total used kept taken s h (memorymap.entries i).physical_base
            (memorymap.entries i).num_pages fits in
        let (t, rest, last) = loop-Holds rounds (i + 1) _ _ u held in
        (
          t,
          rw (usable, whole, run) rest,
          Holds-taken last refl (ground (arith, usable)) (λ j lt. ground (arith, usable)),
        )
    | inr unusable ↦
        let (t, rest, last) = loop-Holds rounds (i + 1) kept taken s h in
        (
          t,
          rw unusable rest,
          Holds-taken last refl (ground (arith, unusable)) (λ j lt. ground (arith, unusable)),
        )
  ]

module _ (libc : Libc) (memory : ℕ → ℕ) (at_null : MemoryMapEntry) (kernel : KernelLayout)
    (memorymap : MemoryMap) (map : Bitmap) (k total : ℕ) where
  abbrev bitmap_base : ℕ
  bitmap_base = (memorymap.entries k).physical_base

  abbrev bitmap_pages : ℕ
  bitmap_pages = nearest_page (total / 8)

  abbrev kernel_pages : ℕ
  kernel_pages = nearest_page (sub64 kernel.physical_end kernel.physical_start)

  -- The pages that are in use in the end: those of no usable region, and those of the first 256, of
  -- the kernel and of the bitmap.
  abbrev pub in_use : ℕ → Bool
  in_use j =
      covered 0 initial_reserve_pages j
      || covered kernel.physical_start kernel_pages j
      || covered bitmap_base bitmap_pages j
      || not (in_usable memorymap.entries_num 0 memorymap j)

  -- A memory map that the allocator can describe.
  pub record IsMapped : Type 0 where
    pub bytes : (a : ℕ) → memory a < 256
    pub largest : IsLargest memorymap k
    pub all_pages : pages_from memorymap.entries_num 0 memorymap ≡ total
    pub whole_bytes : total % 8 ≡ 0
    pub small : total < 2 ^ 51
    pub usable_within : UsableWithin total memorymap
    pub bitmap_within : bitmap_base / memory_page_size + bitmap_pages ≤ total
    pub kernel_within : kernel.physical_start / memory_page_size + kernel_pages ≤ total
    pub first_within : initial_reserve_pages ≤ total

  module _ (m : IsMapped) where
    abbrev cleared : Pageframe
    cleared = record (initial map) {
      memory_total_size = total * memory_page_size;
      pageframemap = bitmap_initialize libc (λ a. memory (bitmap_base + a)) (total / 8);
    }

    cleared-Holds : Holds total 0 0 (λ j. false) cleared
    unfolding bt bitmap_initialize
    cleared-Holds = record {
      ready = record {
        valid = record {
          bytes = λ a. ground (
            arith,
            libc.memset_lem (λ b. memory (bitmap_base + b)) 0 (total / 8) a,
            m.bytes (bitmap_base + a),
          );
          small = omega (arith, m.small);
          used_word = omega arith;
          used_pages = refl;
          reserved_word = omega arith;
          reserved_pages = refl;
          current_word = omega arith;
        };
        request_off = refl;
        lock_off = refl;
        free_off = refl;
      };
      pages = omega (arith, m.whole_bytes);
      size = refl;
      used_size = refl;
      reserved_size = refl;
      from_zero = refl;
      page = λ j lt.
          bitmap_get-initialize libc (λ a. memory (bitmap_base + a)) (total / 8) j
            (omega (arith, m.whole_bytes));
    }

    all_bytes :
        (for_range (measure_region memorymap) memorymap.entries_num 0 (none, 0)).1
        ≡ total * memory_page_size
    all_bytes =
        let small : total < 2 ^ 51 = m.small in
        let all : pages_from memorymap.entries_num 0 memorymap ≡ total = m.all_pages in
        total-pages memorymap.entries_num 0 memorymap none 0 (omega arith) ∙ omega arith

    -- The run of the whole from the runs of its five calls.
    chain :
        {s1 s2 s3 s4 s5 : Pageframe}
        → pageframe_reserve 0 total cleared ≡ ok tt s1
        → unreserve_regions memorymap.entries_num 0 memorymap s1 ≡ ok tt s2
        → pageframe_lock bitmap_base bitmap_pages s2 ≡ ok tt s3
        → pageframe_lock kernel.physical_start kernel_pages s3 ≡ ok tt s4
        → pageframe_reserve 0 initial_reserve_pages s4 ≡ ok tt s5
        → pageframe_init libc memory at_null kernel memorymap (initial map) ≡ ok tt s5
    unfolding pageframe_init
    chain run1 run2 run3 run4 run5 =
        let as_pages : total * memory_page_size / memory_page_size ≡ total = omega arith in
        rw (all_bytes, largest-found memorymap k m.largest 0, as_pages, run1, run2, run3, run4) run5

    -- For a memory map whose pages are a multiple of 8 and fewer than 2 ^ 51, with a usable region, and
    -- whose usable regions, bitmap and kernel end inside its pages: pageframe_init returns, with the
    -- lock bits off and the variables in range; the pages in use are those of no usable region, of the
    -- first 256, of the kernel and of the bitmap, which lies at the first of the largest usable
    -- regions; the used and the reserved size count those pages, the first 256 beside the unusable;
    -- and the current index is 0.
    pub pageframe_init-Holds :
        (t : Pageframe) × (pageframe_init libc memory at_null kernel memorymap (initial map)
          ≡ ok tt t)
        × Holds total
            (bitmap_pages + kernel_pages)
            (total - usable_from memorymap.entries_num 0 memorymap + initial_reserve_pages)
            in_use
            t
    pageframe_init-Holds =
        let small : total < 2 ^ 51 = m.small in
        let (s1, run1, h1) =
          reserve-Holds total 0 0 _ cleared cleared-Holds 0 total (omega arith) (omega arith) in
        let (s2, run2, h2) =
          loop-Holds memorymap total 0 small m.usable_within memorymap.entries_num 0 _ _ s1 h1 in
        let (s3, run3, h3) =
          lock-Holds total 0 _ _ s2 h2 bitmap_base bitmap_pages m.bitmap_within
            (omega (arith, m.bitmap_within)) in
        let (s4, run4, h4) =
          lock-Holds total _ _ _ s3 h3 kernel.physical_start kernel_pages m.kernel_within
            (omega (arith, m.bitmap_within, m.kernel_within)) in
        let (s5, run5, h5) =
          reserve-Holds total _ _ _ s4 h4 0 initial_reserve_pages m.first_within (omega arith) in
        (
          s5,
          chain run1 run2 run3 run4 run5,
          Holds-taken h5 (omega arith) (omega arith) (λ j lt. ground arith),
        )
