-- ===== src/Paging/Supply.antt =====
-- The pages that the allocator of src/kernel/memory/pageframe.c has for new tables.
use native.Mathlib.Decide.{dec_lt}
use visual_os.Pageframe.Request.{pageframe_request_lem}
use visual_os.Pageframe.RequestPages.Search.{FreeBetween}
use visual_os.Base.{ℕ, zero, suc, ◌+◌, ◌≤◌, ◌≡◌, true, arith, inl, inr}
use visual_os.Pageframe.{Pageframe, pageframe_request}
use visual_os.Pageframe.Update.{map_pages, locked, locked-IsValid}
use visual_os.Pageframe.Request.{IsReady, Granted, move-IsValid}
use visual_os.Pageframe.Pages.{size-fill}
use visual_os.Pageframe.Tight.{used-fill}
use visual_os.Paging.Walk.{Enough}

-- The state of the allocator after a page was given out is ready again.
pub Granted-IsReady :
    (s : Pageframe) (k : ℕ)
    → IsReady s
    → Granted s k (pageframe_request s)
    → IsReady (locked 1 k (record s { current_index = k + 1 }))
Granted-IsReady s k r g = record {
  valid =
      locked-IsValid 1 k (record s { current_index = k + 1 })
        (move-IsValid s (k + 1) s.mutex r.valid (omega (arith, g.inside, r.valid.small)));
  request_off = r.request_off;
  lock_off = r.lock_off;
  free_off = r.free_off;
}

pub Enough-weaken : (m : ℕ) (s : Pageframe) → Enough (suc m) s → Enough m s
Enough-weaken zero s e = tt
Enough-weaken (suc m) s (k, g, rest) = (k, g, Enough-weaken m _ rest)

-- Free pages from the current index on are what the next requests give out.
pub Enough-of_free :
    (n : ℕ) (s : Pageframe)
    → IsReady s
    → s.current_index + n ≤ map_pages s
    → FreeBetween s.pageframemap s.current_index (s.current_index + n)
    → Enough n s
Enough-of_free zero s r h free = tt
Enough-of_free (suc n) s r h free = elim (pageframe_request_lem s r) [
  | inr f ↦ absurd (
      cc (
        free s.current_index (omega arith) (omega arith),
        f.all_used s.current_index (omega arith) (omega arith),
      ))
  | inl (k, g) ↦
      let first : k ≡ s.current_index = elim (dec_lt s.current_index k) [
        | yes later ↦ absurd (
            cc (
              free s.current_index (omega arith) (omega arith),
              g.skipped s.current_index (omega arith) later,
            ))
        | no same ↦ omega (arith, g.from)
      ] in
      (
        k,
        g,
        Enough-of_free n (locked 1 k (record s { current_index = k + 1 })) (Granted-IsReady s k r g)
            (rw size-fill (omega (arith, first)))
            (λ j a b. ground (arith, used-fill s r.valid 1 k j true, g.inside, free j)),
      )
]
