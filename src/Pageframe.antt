-- ===== src/Pageframe.antt =====
-- src/kernel/memory/pageframe.c and pageframe.h: the allocator of physical pages. The static
-- variables are one record. A command returns the new record, or `spins` where it would wait for
-- ever for a lock bit that is on. Addresses are numbers, and `NULL` is 0.
pub mod Pages
pub mod Update
pub mod Request
pub mod RequestPages
pub mod Tight
mod Tests
use visual_os.Base.{
  ℕ, zero, suc, ◌+◌, ◌-◌, ◌/◌, ◌*◌, Bool, true, false, Option, none, some, ltb, leb, bool_eq,
  if◌then◌else◌, add64, sub64, mul64, for_range,
}
use visual_os.Base.Run.{Run, ok, spins, out_of_fuel, Cmd, pure, gets, modify, ◌>>=◌, ◌>>◌}
use visual_os.Atomic.{atomic_spinlock, atomic_unlock}
use visual_os.Bitmap.{Bitmap, bitmap_adjusted_size, bitmap_get, bitmap_set}

abbrev pub memory_page_size : ℕ
memory_page_size = 4096

abbrev pub null : ℕ
null = 0

-- `enum PageframeMutexBit`
abbrev pub mutex_request : ℕ
mutex_request = 0

abbrev pub mutex_lock : ℕ
mutex_lock = 1

abbrev pub mutex_free : ℕ
mutex_free = 2

pub record Pageframe : Type 0 where
  pub memory_total_size : ℕ
  pub memory_used_size : ℕ
  pub memory_reserved_size : ℕ
  pub pageframemap : Bitmap
  pub current_index : ℕ
  pub mutex : ℕ

unfoldable pub pageframe_spinlock : ℕ → Cmd Pageframe (Unit {0})
unfolding atomic_spinlock
pageframe_spinlock bit s = elim (atomic_spinlock s.mutex bit) [
  | none ↦ spins
  | some word ↦ ok tt (record s { mutex = word })
]

unfoldable pub pageframe_unlock : ℕ → Cmd Pageframe (Unit {0})
unfolding atomic_unlock
pageframe_unlock bit = modify (λ s. record s { mutex = (atomic_unlock s.mutex bit).0 })

-- The new state, and whether the page is in the wanted state now.
unfoldable pub pageframe_manipulate : Pageframe → ℕ → Bool → Pageframe × Bool
pageframe_manipulate s index state =
    let (m, done) = bitmap_set s.pageframemap index state in
    if bool_eq (bitmap_get s.pageframemap index) state
    then (s, true)
    else (record s { pageframemap = m }, done)

-- `for (i = start; i < start + pages; i++)` with 64-bit wrap of the bound.
unfoldable pub each_page : ℕ → ℕ → (ℕ → Pageframe → Pageframe) → Pageframe → Pageframe
each_page physical_address pages body s =
    let start = physical_address / memory_page_size in
    for_range body (add64 start pages - start) start s

-- The bodies of the four loops.
unfoldable pub lock_page : ℕ → Pageframe → Pageframe
unfolding pageframe_manipulate
lock_page i s =
    let (s', done) = pageframe_manipulate s i true in
    if done then record s' { memory_used_size = add64 s'.memory_used_size memory_page_size } else s'

unfoldable pub reserve_page : ℕ → Pageframe → Pageframe
unfolding pageframe_manipulate
reserve_page i s =
    let (s', done) = pageframe_manipulate s i true in
    if done
    then record s' { memory_reserved_size = add64 s'.memory_reserved_size memory_page_size }
    else s'

-- `if (size >= MEMORY_PAGE_SIZE) size -= MEMORY_PAGE_SIZE`
abbrev pub drop_page : ℕ → ℕ
drop_page size = if leb memory_page_size size then size - memory_page_size else size

-- `if (s_current_index > i) s_current_index = i`
abbrev pub lower_to : ℕ → ℕ → ℕ
lower_to i current = if ltb i current then i else current

unfoldable pub free_page : ℕ → Pageframe → Pageframe
unfolding pageframe_manipulate
free_page i s =
    let (s', done) = pageframe_manipulate s i false in
    if done
    then record s' {
      memory_used_size = drop_page s'.memory_used_size;
      current_index = lower_to i s'.current_index;
    }
    else s'

unfoldable pub unreserve_page : ℕ → Pageframe → Pageframe
unfolding pageframe_manipulate
unreserve_page i s =
    let (s', done) = pageframe_manipulate s i false in
    if done
    then record s' {
      memory_reserved_size = drop_page s'.memory_reserved_size;
      current_index = lower_to i s'.current_index;
    }
    else s'

unfoldable pub pageframe_lock : ℕ → ℕ → Cmd Pageframe (Unit {0})
unfolding pageframe_spinlock pageframe_unlock each_page lock_page
pageframe_lock physical_address pages = do
  pageframe_spinlock mutex_lock
  modify (each_page physical_address pages lock_page)
  pageframe_unlock mutex_lock

unfoldable pub pageframe_reserve : ℕ → ℕ → Cmd Pageframe (Unit {0})
unfolding pageframe_spinlock pageframe_unlock each_page reserve_page
pageframe_reserve physical_address pages = do
  pageframe_spinlock mutex_lock
  modify (each_page physical_address pages reserve_page)
  pageframe_unlock mutex_lock

unfoldable pub pageframe_free : ℕ → ℕ → Cmd Pageframe (Unit {0})
unfolding pageframe_spinlock pageframe_unlock each_page free_page
pageframe_free physical_address pages = do
  pageframe_spinlock mutex_free
  modify (each_page physical_address pages free_page)
  pageframe_unlock mutex_free

unfoldable pub pageframe_unreserve : ℕ → ℕ → Cmd Pageframe (Unit {0})
unfolding pageframe_spinlock pageframe_unlock each_page unreserve_page
pageframe_unreserve physical_address pages = do
  pageframe_spinlock mutex_free
  modify (each_page physical_address pages unreserve_page)
  pageframe_unlock mutex_free

-- `for (; s_current_index < size; s_current_index++)` up to the first free page, with the rounds
-- that are left.
unfoldable pub skip_used : ℕ → Bitmap → ℕ → ℕ
skip_used zero map current = current
skip_used (suc rounds) map current = elim (bitmap_get map current) [
  | true ↦ skip_used rounds map (current + 1)
  | false ↦ current
]

-- Gives `pages` pages from the current index on to the caller.
unfoldable pub take_pages : ℕ → Cmd Pageframe ℕ
take_pages pages = do
  current ← gets (λ s. s.current_index)
  modify (λ s. record s { current_index = add64 current pages })
  pageframe_lock (mul64 current memory_page_size) pages
  pageframe_unlock mutex_request
  pure (mul64 current memory_page_size)

unfoldable pub no_pages : Cmd Pageframe ℕ
no_pages = do pageframe_unlock mutex_request; pure null

unfoldable pub request_step : Cmd Pageframe ℕ
request_step s =
    if ltb s.current_index (bitmap_adjusted_size s.pageframemap) then take_pages 1 s else no_pages s

unfoldable pub pageframe_request : Cmd Pageframe ℕ
pageframe_request = do
  pageframe_spinlock mutex_request
  modify (λ s. record s {
    current_index =
        skip_used (bitmap_adjusted_size s.pageframemap - s.current_index) s.pageframemap
          s.current_index;
  })
  request_step

-- The inner loop: the first `j` with a used page at `current + j`.
unfoldable pub first_used : ℕ → Bitmap → ℕ → ℕ → Option ℕ
first_used zero map current j = none
first_used (suc rounds) map current j = elim (bitmap_get map (add64 current j)) [
  | true ↦ some j
  | false ↦ first_used rounds map current (j + 1)
]

-- The `while` loop, on fuel.
unfoldable pub request_loop : ℕ → ℕ → ℕ → Cmd Pageframe ℕ
request_loop zero bitmap_size pages s = out_of_fuel
request_loop (suc fuel) bitmap_size pages s = elim (ltb s.current_index bitmap_size) [
  | false ↦ no_pages s
  | true ↦ elim (first_used pages s.pageframemap s.current_index 0) [
    | some j ↦
        request_loop fuel bitmap_size pages
          (record s { current_index = add64 s.current_index (j + 1) })
    | none ↦ take_pages pages s
  ]
]

unfoldable pub pageframe_request_pages : ℕ → Cmd Pageframe ℕ
pageframe_request_pages pages = do
  pageframe_spinlock mutex_request
  bitmap_size ← gets (λ s. bitmap_adjusted_size s.pageframemap)
  current ← gets (λ s. s.current_index)
  request_loop (bitmap_size - current + 1) bitmap_size pages

unfoldable pub memory_get_total_size : Pageframe → ℕ
memory_get_total_size s = s.memory_total_size

unfoldable pub memory_get_used_size : Pageframe → ℕ
memory_get_used_size s = s.memory_used_size

unfoldable pub memory_get_reserved_size : Pageframe → ℕ
memory_get_reserved_size s = s.memory_reserved_size

-- The difference of `size_t`s.
unfoldable pub memory_get_free : Pageframe → ℕ
memory_get_free s = sub64 (sub64 s.memory_total_size s.memory_used_size) s.memory_reserved_size
