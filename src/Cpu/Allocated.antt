-- ===== src/Cpu/Allocated.antt =====
-- cpu_allocate: the pages that it gets for the blocks and stacks of a processor.
use visual_os.Base.{
  ℕ, ◌+◌, ◌*◌, ◌-◌, ◌<◌, ◌≡◌, ◌^◌, refl, Bool, true, false, arith, if◌then◌else◌, add64, mul64, ◌∙◌,
  leb, ltb, ◌&&◌, sub64,
}
use visual_os.Base.Libc.{Libc}
use visual_os.Base.Run.{ok, Cmd, then_ok}
use visual_os.Pageframe.{Pageframe, memory_page_size, pageframe_request_pages}
use visual_os.Pageframe.Update.{map_pages}
use visual_os.Pageframe.Request.{page_used}
use visual_os.Pageframe.Tight.{used-fill}
use visual_os.Pageframe.RequestPages.Next.{HasNext, next, request_pages-next, next-HasNext}
use visual_os.Paging.{in_pageframe}
use visual_os.Paging.Attribute.{nearest_page, round_up}
use visual_os.Cpu.{
  Cpu, CpuContext, in_paging, clear_stack, cpu_allocate_stack, cpu_allocate, gdt_block_size,
  timer_stack_top_size, cpu_stack_pages_timer,
}

-- The state with another allocator.
abbrev pub with_pageframe : Pageframe → Cpu → Cpu
with_pageframe t s = record s { paging = record s.paging { pageframe = t } }

in_pageframe-ok :
    {A : Type 0} (m : Cmd Pageframe A) (s : Cpu) {a : A} {t : Pageframe}
    → m s.paging.pageframe ≡ ok a t
    → in_paging (in_pageframe m) s ≡ ok a (with_pageframe t s)
in_pageframe-ok m s e = rw (e, in_pageframe, in_paging) refl

-- The state after a stack of the next pages.
abbrev pub stacked : Libc → (pages : ℕ) → (clear : Bool) → Cpu → Cpu
stacked libc pages clear s = record (with_pageframe (next pages s.paging.pageframe) s) {
  words =
      if clear
      then clear_stack libc (s.paging.pageframe.current_index * memory_page_size)
          (mul64 pages memory_page_size) s.words
      else s.words;
}

stack-run :
    (libc : Libc) (pages n : ℕ) (clear : Bool) (s : Cpu)
    → 0 < pages
    → HasNext (pages + n) s.paging.pageframe
    → cpu_allocate_stack libc pages clear s
      ≡ ok
          ((s.paging.pageframe.current_index + pages) * memory_page_size)
          (stacked libc pages clear s)
unfolding cpu_allocate_stack
stack-run libc pages n clear s some h =
    let small : map_pages s.paging.pageframe < 2 ^ 52 = h.ready.valid.small in
    let top : add64 (s.paging.pageframe.current_index * memory_page_size)
          (mul64 pages memory_page_size)
        ≡ (s.paging.pageframe.current_index + pages) * memory_page_size =
      omega (arith, h.inside) in
    then_ok _ (
      in_pageframe-ok (pageframe_request_pages pages) s
        (request_pages-next pages n s.paging.pageframe some h))
    ∙ rw top refl

-- A context with the blocks and stacks from page `k` on.
abbrev pub with_blocks : (shared_idt k : ℕ) → CpuContext → CpuContext
with_blocks shared_idt k c = record c {
  gdt_block = k * memory_page_size;
  idt_block = shared_idt;
  stack_isr = (k + 2) * memory_page_size;
  stack_irq = (k + 4) * memory_page_size;
  stack_timer_begin = (k + 4) * memory_page_size;
  stack_timer = (k + 5) * memory_page_size - timer_stack_top_size;
}

one_page : nearest_page gdt_block_size ≡ 1
unfolding nearest_page round_up
one_page = refl

-- The state that cpu_allocate leaves.
abbrev pub allocated : Libc → Cpu → Cpu
allocated libc s =
    stacked libc 1 true
      (stacked libc 2 false (stacked libc 1 false (with_pageframe (next 1 s.paging.pageframe) s)))

module _ (libc : Libc) (shared_idt : ℕ) (c : CpuContext) (s : Cpu)
    (h : HasNext 5 s.paging.pageframe) where
  context-at :
      (k : ℕ) (c : CpuContext)
      → k + 5 < 2 ^ 52
      → record c {
        gdt_block = k * memory_page_size;
        idt_block = shared_idt;
        stack_isr = (k + 1 + 1) * memory_page_size;
        stack_irq = (k + 1 + 1 + 2) * memory_page_size;
        stack_timer_begin =
            sub64
              ((k + 1 + 1 + 2 + 1) * memory_page_size)
              (cpu_stack_pages_timer * memory_page_size);
        stack_timer = sub64 ((k + 1 + 1 + 2 + 1) * memory_page_size) timer_stack_top_size;
      }
        ≡ with_blocks shared_idt k c
  context-at k c small =
      let isr : k + 1 + 1 ≡ k + 2 = omega arith in
      let irq : k + 2 + 2 ≡ k + 4 = omega arith in
      let begin : sub64 ((k + 4 + 1) * 4096) 4096 ≡ (k + 4) * 4096 = omega (arith, small) in
      let top : sub64 ((k + 4 + 1) * 4096) 32 ≡ (k + 5) * 4096 - 32 = omega (arith, small) in
      rw (isr, irq, begin, top) refl

  h1 : HasNext 4 (next 1 s.paging.pageframe)
  h1 = next-HasNext 1 4 s.paging.pageframe (omega arith) h

  h2 : HasNext 3 (next 1 (next 1 s.paging.pageframe))
  h2 = next-HasNext 1 3 _ (omega arith) h1

  h3 : HasNext 1 (next 2 (next 1 (next 1 s.paging.pageframe)))
  h3 = next-HasNext 2 1 _ (omega arith) h2

  pub cpu_allocate-run :
      cpu_allocate libc shared_idt c s
      ≡ ok (with_blocks shared_idt s.paging.pageframe.current_index c) (allocated libc s)
  unfolding cpu_allocate
  cpu_allocate-run =
      let small : map_pages s.paging.pageframe < 2 ^ 52 = h.ready.valid.small in
      rw one_page (
        then_ok _ (
          in_pageframe-ok (pageframe_request_pages 1) s
            (request_pages-next 1 4 s.paging.pageframe (omega arith) h))
        ∙ then_ok _ (stack-run libc 1 3 false _ (omega arith) h1)
        ∙ then_ok _ (stack-run libc 2 1 false _ (omega arith) h2)
        ∙ then_ok _ (stack-run libc 1 0 true _ (omega arith) h3)
        ∙ rw (context-at s.paging.pageframe.current_index c (omega (arith, small, h.inside))) refl)

  -- The five pages are in use, and no other page has changed.
  pub page-allocated :
      (j : ℕ)
      → page_used (allocated libc s).paging.pageframe j ≡ (
          if leb s.paging.pageframe.current_index j && ltb j (s.paging.pageframe.current_index + 5)
          then true
          else page_used s.paging.pageframe j)
  page-allocated j = ground (
    arith,
    h.inside,
    h1.inside,
    h2.inside,
    h3.inside,
    used-fill s.paging.pageframe h.ready.valid 1 s.paging.pageframe.current_index j true,
    used-fill _ h1.ready.valid 1 (s.paging.pageframe.current_index + 1) j true,
    used-fill _ h2.ready.valid 2 (s.paging.pageframe.current_index + 1 + 1) j true,
    used-fill _ h3.ready.valid 1 (s.paging.pageframe.current_index + 1 + 1 + 2) j true,
  )
