-- ===== src/Pageframe/Tests.antt =====
-- Runs of pageframe.c, and the theorems about it at an allocator of eight pages.
use native.Mathlib.Decide.{ℕ_discrete}
use mathlib.Core.Path.{subst}
use visual_os.Base.{ℕ, ◌≡◌, ◌+◌, ◌*◌, ◌<◌, ◌⊎◌, refl, true, false, arith, update, zero, suc}
use visual_os.Base.Run.{Run, ok, spins}
use visual_os.Atomic.{bt}
use visual_os.Bitmap.{bitmap_get, bitmap_set}
use visual_os.Pageframe.{
  Pageframe, memory_page_size, pageframe_lock, pageframe_free, pageframe_request,
  pageframe_request_pages, pageframe_spinlock, pageframe_unlock, skip_used, first_used,
  request_step, request_loop, take_pages, no_pages,
}
use visual_os.Pageframe.Update.{IsValid}
use visual_os.Pageframe.Request
use visual_os.Pageframe.Request.{
  IsReady, UsedBetween, page_used, search_end, request-Granted, pageframe_request_lem,
}
use visual_os.Pageframe.RequestPages.Search.{FreeBetween, NoRun}
use visual_os.Pageframe.RequestPages.Outcome
use visual_os.Pageframe.RequestPages.Outcome.{
  pageframe_request_pages_lem, pageframe_request_pages-past_end,
}
use visual_os.Pageframe.Tight.{
  IsTight, Answer, pageframe_request-lowest, pageframe_request_pages-gap, free-request,
}

-- Eight pages, of which 0 and 2 are in use.
abbrev eight : Pageframe
eight = record {
  memory_total_size = 32768;
  memory_used_size = 8192;
  memory_reserved_size = 0;
  pageframemap = record { buffer = update (λ k. 0) 0 0b10100000; size = 1 };
  current_index = 0;
  mutex = 0;
}

eight-IsValid : IsValid eight
eight-IsValid = record {
  bytes = λ k. ground arith;
  small = omega arith;
  used_word = omega arith;
  used_pages = refl;
  reserved_word = omega arith;
  reserved_pages = refl;
  current_word = omega arith;
}

eight-IsReady : IsReady eight
unfolding bt
eight-IsReady = record {
  valid = eight-IsValid;
  request_off = refl;
  lock_off = refl;
  free_off = refl;
}

address_of : Run Pageframe ℕ → ℕ
address_of (ok a s) = a
address_of spins = 1
address_of Run.out_of_fuel = 2
address_of Run.overruns = 3

requests_address :
    (address_of (pageframe_request eight) ≡ 4096)
    × (address_of (pageframe_request_pages 2 eight) ≡ 3 * 4096)
    × (address_of (pageframe_request_pages 6 eight) ≡ 3 * 4096)
unfolding address_of pageframe_request pageframe_request_pages pageframe_spinlock pageframe_unlock
    skip_used first_used request_step request_loop take_pages no_pages pageframe_lock bitmap_get
    bitmap_set
requests_address = (refl, refl, refl)

eight-IsTight : IsTight eight
eight-IsTight j a b = absurd (omega arith)

pageframe_request-lowest_example : Answer eight (pageframe_request eight)
pageframe_request-lowest_example = pageframe_request-lowest eight eight-IsReady eight-IsTight

pageframe_request_pages_lem_example :
    ((k : ℕ) × Outcome.Granted eight 2 k (pageframe_request_pages 2 eight))
    ⊎ ((k : ℕ) × Outcome.Overrun eight 2 k (pageframe_request_pages 2 eight))
    ⊎ Outcome.Refused eight 2 (pageframe_request_pages 2 eight)
pageframe_request_pages_lem_example =
    pageframe_request_pages_lem eight 2 eight-IsReady (omega arith)

-- The same pages, with the index at the last one.
abbrev at_last : Pageframe
at_last = record eight { current_index = 7 }

at_last-IsReady : IsReady at_last
unfolding bt
at_last-IsReady = record {
  valid = record {
    bytes = λ k. ground arith;
    small = omega arith;
    used_word = omega arith;
    used_pages = refl;
    reserved_word = omega arith;
    reserved_pages = refl;
    current_word = omega arith;
  };
  request_off = refl;
  lock_off = refl;
  free_off = refl;
}

at_last-free : FreeBetween at_last.pageframemap 7 9
unfolding bitmap_get
at_last-free j a b = elim (ℕ_discrete j 7) [
  | yes e ↦ rw e
  | no ne ↦ let e : j ≡ 8 = omega arith in rw e
]

pageframe_request_pages-past_end_example :
    Outcome.Overrun at_last 2 7 (pageframe_request_pages 2 at_last)
pageframe_request_pages-past_end_example =
    pageframe_request_pages-past_end at_last 2 at_last-IsReady (omega arith) (omega arith)
      at_last-free (omega arith)

eight-pages :
    (bitmap_get eight.pageframemap 0 ≡ true)
    × (bitmap_get eight.pageframemap 1 ≡ false)
    × (bitmap_get eight.pageframemap 2 ≡ true)
    × (bitmap_get eight.pageframemap 3 ≡ false)
    × (bitmap_get eight.pageframemap 4 ≡ false)
unfolding bitmap_get
eight-pages = (refl, refl, refl, refl, refl)

eight-Granted : Request.Granted eight 1 (pageframe_request eight)
eight-Granted =
    subst (λ k. Request.Granted eight k (pageframe_request eight)) ends
      (request-Granted eight eight-IsReady (rw ends (omega arith)))
  where
    ends : search_end eight ≡ 1
    ends = unfold search_end skip_used bitmap_get in refl

free-request_example :
    (t u : Pageframe) × (pageframe_request eight ≡ ok (1 * memory_page_size) t)
    × (pageframe_free (1 * memory_page_size) 1 t ≡ ok tt u)
    × ((j : ℕ) → page_used u j ≡ page_used eight j)
    × (u.memory_used_size ≡ eight.memory_used_size)
    × (u.current_index ≡ 1)
free-request_example = free-request eight 1 eight-IsReady eight-Granted (omega arith)

run_at_three : FreeBetween eight.pageframemap 3 (3 + 2)
run_at_three j a b = elim (ℕ_discrete j 3) [
  | yes e ↦ rw e eight-pages.3
  | no ne ↦ let e : j ≡ 4 = omega arith in rw e eight-pages.4
]

NoRun-before : NoRun eight.pageframemap 2 0 2
NoRun-before zero a b free = cc (free 0 (omega arith) (omega arith), eight-pages.0)
NoRun-before (suc zero) a b free = cc (free 2 (omega arith) (omega arith), eight-pages.2)
NoRun-before (suc (suc k)) a b free = absurd (omega arith)

pageframe_request_pages-gap_example :
    (k : ℕ) × (t : Pageframe) × (1 < k)
    × (pageframe_request_pages 2 eight ≡ ok (k * memory_page_size) t)
    × (page_used t 1 ≡ false)
    × (1 < t.current_index)
pageframe_request_pages-gap_example =
    pageframe_request_pages-gap eight 2 1 3 eight-IsReady (omega arith) (omega arith) (omega arith)
      eight-pages.1 NoRun-before (omega arith) (omega arith) run_at_three
