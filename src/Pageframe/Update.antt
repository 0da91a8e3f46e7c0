-- ===== src/Pageframe/Update.antt =====
-- `pageframe_lock`, `pageframe_reserve`, `pageframe_free` and `pageframe_unreserve`: the state that
-- each leaves.
use visual_os.Base.{
  ℕ, suc, ◌+◌, ◌-◌, ◌*◌, ◌/◌, ◌%◌, ◌^◌, ◌≤◌, ◌<◌, ◌≡◌, refl, true, false, arith, ◌==◌,
  if◌then◌else◌, u64_mod, for_range, for_range-eq, add64,
}
use visual_os.Base.Run.{ok, spins}
use visual_os.Atomic.{bt, bts}
use visual_os.Atomic.Laws.{btr-bts}
use visual_os.Bitmap.{bitmap_adjusted_size}
use visual_os.Bitmap.Laws.{IsBytes}
use visual_os.Pageframe.{
  Pageframe, memory_page_size, mutex_lock, mutex_free, pageframe_spinlock, pageframe_unlock,
  each_page, lock_page, reserve_page, free_page, unreserve_page, lower_to, pageframe_lock,
  pageframe_reserve, pageframe_free, pageframe_unreserve,
}
use visual_os.Pageframe.Pages.{fill, manipulate-put, size-put_page, size-fill, fill-IsBytes}

-- The 64-bit variables are in range, the bitmap describes less than 2 ^ 52 pages, so that the
-- address of a page does not wrap, and whole pages are counted.
pub record IsValid (s : Pageframe) : Type 0 where
  pub bytes : IsBytes s.pageframemap
  pub small : s.pageframemap.size * 8 < 2 ^ 52
  pub used_word : s.memory_used_size < u64_mod
  pub used_pages : s.memory_used_size % memory_page_size ≡ 0
  pub reserved_word : s.memory_reserved_size < u64_mod
  pub reserved_pages : s.memory_reserved_size % memory_page_size ≡ 0
  pub current_word : s.current_index < u64_mod

abbrev pub map_pages : Pageframe → ℕ
map_pages s = s.pageframemap.size * 8

-- The states that the four loops leave after `n` pages from page `i` on.
abbrev pub locked : ℕ → ℕ → Pageframe → Pageframe
locked n i s = record s {
  memory_used_size = add64 s.memory_used_size (n * memory_page_size);
  pageframemap = fill n i true s.pageframemap;
}

abbrev pub reserved : ℕ → ℕ → Pageframe → Pageframe
reserved n i s = record s {
  memory_reserved_size = add64 s.memory_reserved_size (n * memory_page_size);
  pageframemap = fill n i true s.pageframemap;
}

abbrev pub freed : ℕ → ℕ → Pageframe → Pageframe
freed n i s = record s {
  memory_used_size = s.memory_used_size - n * memory_page_size;
  pageframemap = fill n i false s.pageframemap;
  current_index = if n == 0 then s.current_index else lower_to i s.current_index;
}

abbrev pub unreserved : ℕ → ℕ → Pageframe → Pageframe
unreserved n i s = record s {
  memory_reserved_size = s.memory_reserved_size - n * memory_page_size;
  pageframemap = fill n i false s.pageframemap;
  current_index = if n == 0 then s.current_index else lower_to i s.current_index;
}

-- What the loops need at each round.
record Fits (n i : ℕ) (s : Pageframe) : Type 0 where
  small : s.pageframemap.size * 8 < 2 ^ 52
  used_word : s.memory_used_size < u64_mod
  used_pages : s.memory_used_size % memory_page_size ≡ 0
  reserved_word : s.memory_reserved_size < u64_mod
  reserved_pages : s.memory_reserved_size % memory_page_size ≡ 0
  inside : i + n ≤ s.pageframemap.size * 8

in_map : {n i : ℕ} {s : Pageframe} → Fits (suc n) i s → i ≤ bitmap_adjusted_size s.pageframemap
in_map f = omega arith

lock_loop : (n i : ℕ) (s : Pageframe) → Fits n i s → for_range lock_page n i s ≡ locked n i s
unfolding fill lock_page
lock_loop =
    for_range-eq lock_page locked Fits (λ i s f. ground arith)
      (λ n i s f.
        rw (manipulate-put s i true (in_map f))
          (ground (arith, size-put_page s.pageframemap i true)))

reserve_loop :
    (n i : ℕ) (s : Pageframe) → Fits n i s → for_range reserve_page n i s ≡ reserved n i s
unfolding fill reserve_page
reserve_loop =
    for_range-eq reserve_page reserved Fits (λ i s f. ground arith)
      (λ n i s f.
        rw (manipulate-put s i true (in_map f))
          (ground (arith, size-put_page s.pageframemap i true)))

free_loop : (n i : ℕ) (s : Pageframe) → Fits n i s → for_range free_page n i s ≡ freed n i s
unfolding fill free_page
free_loop =
    for_range-eq free_page freed Fits (λ i s f. ground arith)
      (λ n i s f.
        rw (manipulate-put s i false (in_map f))
          (ground (arith, size-put_page s.pageframemap i false)))

unreserve_loop :
    (n i : ℕ) (s : Pageframe) → Fits n i s → for_range unreserve_page n i s ≡ unreserved n i s
unfolding fill unreserve_page
unreserve_loop =
    for_range-eq unreserve_page unreserved Fits (λ i s f. ground arith)
      (λ n i s f.
        rw (manipulate-put s i false (in_map f))
          (ground (arith, size-put_page s.pageframemap i false)))

-- A lock bit that is off is taken, and given back.
pub spinlock-ok :
    (bit : ℕ) (s : Pageframe)
    → bt s.mutex bit ≡ false
    → pageframe_spinlock bit s ≡ ok tt (record s { mutex = (bts s.mutex bit).0 })
unfolding pageframe_spinlock bts
spinlock-ok bit s off = ground (arith, off)

pub unlock-ok :
    (bit m : ℕ) (s : Pageframe)
    → bt m bit ≡ false
    → s.mutex ≡ (bts m bit).0
    → pageframe_unlock bit s ≡ ok tt (record s { mutex = m })
unfolding pageframe_unlock
unlock-ok bit m s off e = rw (e, btr-bts m bit off)

module _ (physical_address pages : ℕ) (s : Pageframe) (v : IsValid s)
    (inside : physical_address / memory_page_size + pages ≤ map_pages s) where
  abbrev start : ℕ
  start = physical_address / memory_page_size

  rounds : add64 start pages - start ≡ pages
  rounds = let open_small : map_pages s < 2 ^ 52 = v.small in omega arith

  fits : (m : ℕ) → Fits pages start (record s { mutex = m })
  fits m = record {
    small = v.small;
    used_word = v.used_word;
    used_pages = v.used_pages;
    reserved_word = v.reserved_word;
    reserved_pages = v.reserved_pages;
    inside = inside;
  }

  -- Inside the bitmap, and with the LOCK bit off, `pageframe_lock` puts the pages in use, adds all
  -- of them to the used size whatever their state was, and gives the lock bit back.
  pub pageframe_lock-locked :
      bt s.mutex mutex_lock ≡ false
      → pageframe_lock physical_address pages s ≡ ok tt (locked pages start s)
  unfolding pageframe_lock each_page
  pageframe_lock-locked off =
      rw
        (
          spinlock-ok mutex_lock s off,
          rounds,
          lock_loop pages start (record s { mutex = (bts s.mutex mutex_lock).0 })
              (fits (bts s.mutex mutex_lock).0),
        )
        (unlock-ok mutex_lock s.mutex _ off refl)

  -- `pageframe_reserve` does the same with the reserved size.
  pub pageframe_reserve-reserved :
      bt s.mutex mutex_lock ≡ false
      → pageframe_reserve physical_address pages s ≡ ok tt (reserved pages start s)
  unfolding pageframe_reserve each_page
  pageframe_reserve-reserved off =
      rw
        (
          spinlock-ok mutex_lock s off,
          rounds,
          reserve_loop pages start (record s { mutex = (bts s.mutex mutex_lock).0 })
              (fits (bts s.mutex mutex_lock).0),
        )
        (unlock-ok mutex_lock s.mutex _ off refl)

  -- With the FREE bit off, `pageframe_free` puts the pages out of use, takes them off the used
  -- size as far as it goes, lowers the current index to the first of them, and gives the bit back.
  pub pageframe_free-freed :
      bt s.mutex mutex_free ≡ false
      → pageframe_free physical_address pages s ≡ ok tt (freed pages start s)
  unfolding pageframe_free each_page
  pageframe_free-freed off =
      rw
        (
          spinlock-ok mutex_free s off,
          rounds,
          free_loop pages start (record s { mutex = (bts s.mutex mutex_free).0 })
              (fits (bts s.mutex mutex_free).0),
        )
        (unlock-ok mutex_free s.mutex _ off refl)

  -- `pageframe_unreserve` does the same with the reserved size.
  pub pageframe_unreserve-unreserved :
      bt s.mutex mutex_free ≡ false
      → pageframe_unreserve physical_address pages s ≡ ok tt (unreserved pages start s)
  unfolding pageframe_unreserve each_page
  pageframe_unreserve-unreserved off =
      rw
        (
          spinlock-ok mutex_free s off,
          rounds,
          unreserve_loop pages start (record s { mutex = (bts s.mutex mutex_free).0 })
              (fits (bts s.mutex mutex_free).0),
        )
        (unlock-ok mutex_free s.mutex _ off refl)

-- The four states are valid again.
module _ (n i : ℕ) (s : Pageframe) (v : IsValid s) where
  pub locked-IsValid : IsValid (locked n i s)
  locked-IsValid = record {
    bytes = fill-IsBytes n i true s.pageframemap v.bytes;
    small = rw (size-fill n i true s.pageframemap) v.small;
    used_word = let h : s.memory_used_size % 4096 ≡ 0 = v.used_pages in omega arith;
    used_pages = let h : s.memory_used_size % 4096 ≡ 0 = v.used_pages in omega arith;
    reserved_word = v.reserved_word;
    reserved_pages = v.reserved_pages;
    current_word = v.current_word;
  }

  pub reserved-IsValid : IsValid (reserved n i s)
  reserved-IsValid = record {
    bytes = fill-IsBytes n i true s.pageframemap v.bytes;
    small = rw (size-fill n i true s.pageframemap) v.small;
    used_word = v.used_word;
    used_pages = v.used_pages;
    reserved_word = let h : s.memory_reserved_size % 4096 ≡ 0 = v.reserved_pages in omega arith;
    reserved_pages = let h : s.memory_reserved_size % 4096 ≡ 0 = v.reserved_pages in omega arith;
    current_word = v.current_word;
  }

  pub freed-IsValid : IsValid (freed n i s)
  freed-IsValid = record {
    bytes = fill-IsBytes n i false s.pageframemap v.bytes;
    small = rw (size-fill n i false s.pageframemap) v.small;
    used_word = omega (arith, v.used_word);
    used_pages = let h : s.memory_used_size % 4096 ≡ 0 = v.used_pages in omega arith;
    reserved_word = v.reserved_word;
    reserved_pages = v.reserved_pages;
    current_word = let h : s.current_index < u64_mod = v.current_word in ground arith;
  }

  pub unreserved-IsValid : IsValid (unreserved n i s)
  unreserved-IsValid = record {
    bytes = fill-IsBytes n i false s.pageframemap v.bytes;
    small = rw (size-fill n i false s.pageframemap) v.small;
    used_word = v.used_word;
    used_pages = v.used_pages;
    reserved_word = omega (arith, v.reserved_word);
    reserved_pages = let h : s.memory_reserved_size % 4096 ≡ 0 = v.reserved_pages in omega arith;
    current_word = let h : s.current_index < u64_mod = v.current_word in ground arith;
  }

spinlock-spins :
    (bit : ℕ) (s : Pageframe) → bt s.mutex bit ≡ true → pageframe_spinlock bit s ≡ spins
unfolding pageframe_spinlock bts
spinlock-spins bit s on = ground (arith, on)

-- A lock bit that is on stops each of the four for ever.
pub locked_out :
    (physical_address pages : ℕ) (s : Pageframe)
    → (bt s.mutex mutex_lock ≡ true
        → (pageframe_lock physical_address pages s ≡ spins)
          × (pageframe_reserve physical_address pages s ≡ spins))
      × (bt s.mutex mutex_free ≡ true
          → (pageframe_free physical_address pages s ≡ spins)
            × (pageframe_unreserve physical_address pages s ≡ spins))
unfolding pageframe_lock pageframe_reserve pageframe_free pageframe_unreserve
locked_out a n s = (
  λ on. (rw (spinlock-spins mutex_lock s on), rw (spinlock-spins mutex_lock s on)),
  λ on. (rw (spinlock-spins mutex_free s on), rw (spinlock-spins mutex_free s on)),
)
