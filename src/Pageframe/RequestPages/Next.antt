-- ===== src/Pageframe/RequestPages/Next.antt =====
-- pageframe_request_pages where the pages from the current index on are free: it gives out these, and
-- what is left serves the next request.
use native.Mathlib.Decide.{dec_lt}
use mathlib.Core.Path.{subst}
use visual_os.Base.{ℕ, ◌+◌, ◌*◌, ◌≤◌, ◌<◌, ◌≡◌, ◌^◌, true, arith, inl, inr}
use visual_os.Base.Run.{ok}
use visual_os.Pageframe.{Pageframe, memory_page_size, pageframe_request_pages}
use visual_os.Pageframe.Pages.{size-fill}
use visual_os.Pageframe.Update.{map_pages, locked, locked-IsValid}
use visual_os.Pageframe.Request.{IsReady, move-IsValid}
use visual_os.Pageframe.Tight.{used-fill}
use visual_os.Pageframe.RequestPages.Search.{FreeBetween}
use visual_os.Pageframe.RequestPages.Outcome.{Granted, pageframe_request_pages_lem}

-- A ready allocator with `n` free pages in a row from its current index on.
pub record HasNext (n : ℕ) (s : Pageframe) : Type 0 where
  pub ready : IsReady s
  pub inside : s.current_index + n ≤ map_pages s
  pub free : FreeBetween s.pageframemap s.current_index (s.current_index + n)

-- The state after a request for the next pages.
abbrev pub next : ℕ → Pageframe → Pageframe
next pages s = locked pages s.current_index (record s { current_index = s.current_index + pages })

module _ (pages n : ℕ) (s : Pageframe) (some : 0 < pages) (h : HasNext (pages + n) s) where
  first : FreeBetween s.pageframemap s.current_index (s.current_index + pages)
  first j a b = h.free j a (omega arith)

  pub request_pages-next :
      pageframe_request_pages pages s ≡ ok (s.current_index * memory_page_size) (next pages s)
  request_pages-next =
      let small : map_pages s < 2 ^ 52 = h.ready.valid.small in
      elim (pageframe_request_pages_lem s pages h.ready (omega (arith, h.inside))) [
        | inl (k, g) ↦ elim (dec_lt s.current_index k) [
          | yes later ↦ absurd (g.lowest s.current_index (omega arith) later first)
          | no same ↦
              let at : k ≡ s.current_index = omega (arith, g.from) in
              (subst (λ i. Granted s pages i (pageframe_request_pages pages s)) at g).run
        ]
        | inr (inl (k, o)) ↦ elim (dec_lt s.current_index k) [
          | yes later ↦ absurd (o.lowest s.current_index (omega arith) later first)
          | no same ↦ absurd (omega (arith, o.from, o.ends, h.inside))
        ]
        | inr (inr f) ↦
            absurd (f.no_run s.current_index (omega arith) (omega (arith, h.inside)) first)
      ]

  pub next-HasNext : HasNext n (next pages s)
  next-HasNext = record {
    ready = record {
      valid =
          locked-IsValid pages s.current_index
            (record s { current_index = s.current_index + pages })
            (move-IsValid s (s.current_index + pages) s.mutex h.ready.valid
              (omega (arith, h.inside, h.ready.valid.small)));
      request_off = h.ready.request_off;
      lock_off = h.ready.lock_off;
      free_off = h.ready.free_off;
    };
    inside = rw (size-fill pages s.current_index true s.pageframemap) (omega (arith, h.inside));
    free = λ j a b.
        ground (arith, h.inside, used-fill s h.ready.valid pages s.current_index j true, h.free j);
  }
