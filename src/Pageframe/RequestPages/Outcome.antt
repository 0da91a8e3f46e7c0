-- ===== src/Pageframe/RequestPages/Outcome.antt =====
-- The three outcomes of `pageframe_request_pages`.
use visual_os.Base.{
  ℕ, ◌+◌, ◌*◌, ◌/◌, ◌^◌, ◌≤◌, ◌<◌, ◌≡◌, refl, false, arith, mul64, for_range-keeps, inl, inr, ◌⊎◌,
  add64, ◌∙◌,
}
use native.Mathlib.Decide.{dec_le, dec_lt}
use mathlib.Core.Path.{subst}
use visual_os.Bitmap.Laws.{bitmap_get_out}
use visual_os.Base.Run.{Run, ok}
use visual_os.Atomic.{bt, bts}
use visual_os.Atomic.Laws.{bts-bt_ne}
use visual_os.Bitmap.{bitmap_adjusted_size}
use visual_os.Pageframe.{
  Pageframe, null, memory_page_size, mutex_lock, mutex_request, each_page, lock_page,
  pageframe_lock, take_pages, pageframe_request_pages,
}
use visual_os.Pageframe.Update.{map_pages, locked, spinlock-ok, unlock-ok}
use visual_os.Pageframe.Request.{IsReady, requesting, take_pages-locked, no_pages-null}
use visual_os.Pageframe.RequestPages.Search.{FreeBetween, NoRun, Ended, request_loop-Ended}

mutex-lock_page : (i : ℕ) (s : Pageframe) → (lock_page i s).mutex ≡ s.mutex
unfolding lock_page
mutex-lock_page i s = ground arith

mutex-each_page : (a n : ℕ) (s : Pageframe) → (each_page a n lock_page s).mutex ≡ s.mutex
unfolding each_page
mutex-each_page a n s =
    for_range-keeps lock_page (λ (t : Pageframe). t.mutex ≡ s.mutex)
      (λ i t e. mutex-lock_page i t ∙ e) _ (a / memory_page_size) s refl

-- With the LOCK bit off `pageframe_lock` returns, whatever it is given.
pageframe_lock-returns :
    (a n : ℕ) (s : Pageframe)
    → bt s.mutex mutex_lock ≡ false
    → (t : Pageframe) × (pageframe_lock a n s ≡ ok tt t) × (t.mutex ≡ s.mutex)
unfolding pageframe_lock
pageframe_lock-returns a n s off = (
  record (each_page a n lock_page (record s { mutex = (bts s.mutex mutex_lock).0 })) {
    mutex = s.mutex;
  },
  rw (spinlock-ok mutex_lock s off) (unlock-ok mutex_lock s.mutex _ off (mutex-each_page a n _)),
  refl,
)

-- The pages `[k, k + pages)` lie inside the bitmap, were all free, are the lowest such run, and
-- are locked now.
pub record Granted (s : Pageframe) (pages k : ℕ) (r : Run Pageframe ℕ) : Type 0 where
  pub from : s.current_index ≤ k
  pub inside : k + pages ≤ map_pages s
  pub was_free : FreeBetween s.pageframemap k (k + pages)
  pub lowest : NoRun s.pageframemap pages s.current_index k
  pub run : r ≡ ok (k * memory_page_size) (locked pages k (record s { current_index = k + pages }))

-- The address of a run that begins inside the bitmap and ends behind it.
pub record Overrun (s : Pageframe) (pages k : ℕ) (r : Run Pageframe ℕ) : Type 0 where
  pub from : s.current_index ≤ k
  pub begins : k < map_pages s
  pub ends : map_pages s < k + pages
  pub was_free : FreeBetween s.pageframemap k (map_pages s)
  pub lowest : NoRun s.pageframemap pages s.current_index k
  pub after : Pageframe
  pub run : r ≡ ok (k * memory_page_size) after

pub record Refused (s : Pageframe) (pages : ℕ) (r : Run Pageframe ℕ) : Type 0 where
  pub no_run : NoRun s.pageframemap pages s.current_index (map_pages s)
  pub last : ℕ
  pub past : map_pages s ≤ last
  pub run : r ≡ ok null (record s { current_index = last })

module _ (s : Pageframe) (pages : ℕ) (r : IsReady s) (few : pages < 2 ^ 52) where
  small : map_pages s < 2 ^ 52
  small = r.valid.small

  size-adjusted : bitmap_adjusted_size s.pageframemap ≡ map_pages s
  size-adjusted = omega (arith, small)

  loop : Ended (requesting s) (map_pages s) pages (pageframe_request_pages pages s)
  unfolding pageframe_request_pages
  loop =
      rw (spinlock-ok mutex_request s r.request_off, size-adjusted)
        (request_loop-Ended (map_pages s) pages (omega arith) (omega (arith, small)) _
          (requesting s) (omega arith))

  take_of_lock :
      (k : ℕ) (t : Pageframe)
      → k < map_pages s
      → pageframe_lock
          (k * memory_page_size)
          pages
          (record (requesting s) { current_index = add64 k pages })
        ≡ ok tt t
      → t.mutex ≡ (requesting s).mutex
      → take_pages pages (record (requesting s) { current_index = k })
        ≡ ok (k * memory_page_size) (record t { mutex = s.mutex })
  unfolding take_pages
  take_of_lock k t h run same =
      let address : mul64 k memory_page_size ≡ k * memory_page_size = omega (arith, small) in
      rw (address, run, unlock-ok mutex_request s.mutex t r.request_off same)

  take-returns :
      (k : ℕ)
      → k < map_pages s
      → (t : Pageframe) × (take_pages pages (record (requesting s) { current_index = k })
          ≡ ok (k * memory_page_size) t)
  take-returns k h =
      let (t, run, same) =
        pageframe_lock-returns (k * memory_page_size) pages
          (record (requesting s) { current_index = add64 k pages })
          (rw (bts-bt_ne mutex_request mutex_lock s.mutex (omega arith)) r.lock_off) in
      (record t { mutex = s.mutex }, take_of_lock k t h run same)

  outcome :
      Ended (requesting s) (map_pages s) pages (pageframe_request_pages pages s)
      → ((k : ℕ) × Granted s pages k (pageframe_request_pages pages s))
        ⊎ ((k : ℕ) × Overrun s pages k (pageframe_request_pages pages s))
        ⊎ Refused s pages (pageframe_request_pages pages s)
  outcome (inl (k, f)) = elim (dec_le (k + pages) (map_pages s)) [
    | yes fits ↦ inl (
      k,
      record {
        from = f.from;
        inside = fits;
        was_free = f.free;
        lowest = f.lowest;
        run = f.run ∙ take_pages-locked s pages k r fits;
      },
    )
    | no out ↦
        let (t, run) = take-returns k f.inside in
        inr (
          inl (
            k,
            record {
              from = f.from;
              begins = f.inside;
              ends = omega arith;
              was_free = λ j a b. f.free j a (omega arith);
              lowest = f.lowest;
              after = t;
              run = f.run ∙ run;
            },
          ))
  ]
  outcome (inr (last, m)) = inr (
      inr (record {
        no_run = m.no_run;
        last = last;
        past = m.past;
        run = m.run ∙ no_pages-null s last r;
      }))

  -- A ready `pageframe_request_pages` always returns. It gives out the lowest run of free pages
  -- from the current index on, locked and counted as used; or `NULL`, if no such run begins inside
  -- the bitmap; or, where free pages reach to the end of the bitmap, a run that ends behind it.
  pub pageframe_request_pages_lem :
      ((k : ℕ) × Granted s pages k (pageframe_request_pages pages s))
      ⊎ ((k : ℕ) × Overrun s pages k (pageframe_request_pages pages s))
      ⊎ Refused s pages (pageframe_request_pages pages s)
  pageframe_request_pages_lem = outcome loop

  -- Where the last pages of the bitmap are free, and so is the bit behind it, a request for more
  -- pages than are left is not refused: the caller gets pages that the bitmap does not describe.
  pub pageframe_request_pages-past_end :
      s.current_index < map_pages s
      → FreeBetween s.pageframemap s.current_index (map_pages s + 1)
      → map_pages s < s.current_index + pages
      → Overrun s pages s.current_index (pageframe_request_pages pages s)
  pageframe_request_pages-past_end h free more = elim pageframe_request_pages_lem [
    | inl (k, g) ↦ absurd (omega (arith, g.from, g.inside))
    | inr (inl (k, o)) ↦
        let first : k ≡ s.current_index = elim (dec_lt s.current_index k) [
          | yes later ↦ absurd (o.lowest s.current_index (omega arith) later run_of_free)
          | no same ↦ omega (arith, o.from)
        ] in
        subst (λ i. Overrun s pages i (pageframe_request_pages pages s)) first o
    | inr (inr f) ↦ absurd (f.no_run s.current_index (omega arith) h run_of_free)
  ]
    where
      run_of_free : FreeBetween s.pageframemap s.current_index (s.current_index + pages)
      run_of_free j a b = elim (dec_lt j (map_pages s + 1)) [
        | yes inside ↦ free j a inside
        | no out ↦ bitmap_get_out s.pageframemap j (omega (arith, small))
      ]
