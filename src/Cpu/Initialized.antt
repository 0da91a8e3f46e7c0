-- ===== src/Cpu/Initialized.antt =====
-- cpu_init: the blocks and stacks of a processor as it reads them.
use visual_os.Base.{
  ℕ, ◌+◌, ◌*◌, ◌/◌, ◌%◌, ◌-◌, ◌<◌, ◌≤◌, ◌≡◌, ◌^◌, refl, true, false, arith, if◌then◌else◌, ◌∙◌, leb,
  ltb, ◌&&◌, ◌==◌, u64_mod, update, add64, ==_refl, ap,
}
use visual_os.Base.Libc.{Libc}
use visual_os.Base.Run.{ok, then_ok}
use visual_os.Pageframe.{memory_page_size}
use visual_os.Pageframe.Update.{map_pages}
use visual_os.Pageframe.Request.{page_used}
use visual_os.Pageframe.RequestPages.Next.{HasNext}
use visual_os.Paging.{paging_get_pagetable_l4}
use visual_os.Paging.Attribute.{paging_set_cache_size, paging_set_cache}
use visual_os.Paging.Regions.{paging_init_pat}
use visual_os.Text.{Framebuffer}
use visual_os.Descriptors.{
  GdtBlock, idt_init, idt_ist_isr, idt_ist_irq, idt_ist_timer, gdt_init, gdt_set_tss_ist,
  gdt_set_tss_ring, gdt_set_tss,
}
use visual_os.Descriptors.Segments.{tss_base, tss_descriptor_of-base}
use visual_os.Cpu.{
  Cpu, CpuContext, clear_stack, cpu_init, init_gdt, tss_offset, cpu_context_size,
  page_pat_write_combine,
}
use visual_os.Cpu.Allocated.{with_blocks, allocated, cpu_allocate-run, page-allocated}

-- The stacks in the TSS of a block, as the processor reads them: two words of 32 bits each.
abbrev pub ist_stack : GdtBlock → ℕ → ℕ
ist_stack block num = block.tss.ist ((num - 1) * 2) + block.tss.ist ((num - 1) * 2 + 1) * 2 ^ 32

abbrev pub ring_stack : GdtBlock → ℕ → ℕ
ring_stack block num = block.tss.rsp (num * 2) + block.tss.rsp (num * 2 + 1) * 2 ^ 32

update_same : {A : Type 0} (f : ℕ → A) (a : ℕ) (v : A) → update f a v a ≡ v
update_same f a v = rw (==_refl a) refl

update_other :
    {A : Type 0} (f : ℕ → A) (a : ℕ) (v : A) (b : ℕ) → (a == b) ≡ false → update f a v b ≡ f b
update_other f a v b e = rw e refl

two_words :
    (stack : ℕ) → stack < u64_mod → stack % 2 ^ 32 + stack / 2 ^ 32 % 2 ^ 32 * 2 ^ 32 ≡ stack
two_words stack word = omega (arith, word)

module _ (c : CpuContext) (block : GdtBlock) where
  init_gdt-ring : c.stack_kernel < u64_mod → ring_stack (init_gdt c block) 0 ≡ c.stack_kernel
  unfolding init_gdt gdt_set_tss_ist gdt_set_tss_ring
  init_gdt-ring = two_words c.stack_kernel

  init_gdt-ist :
      c.stack_isr < u64_mod
      → c.stack_irq < u64_mod
      → c.stack_timer < u64_mod
      → (ist_stack (init_gdt c block) idt_ist_isr ≡ c.stack_isr)
        × (ist_stack (init_gdt c block) idt_ist_irq ≡ c.stack_irq)
        × (ist_stack (init_gdt c block) idt_ist_timer ≡ c.stack_timer)
  unfolding init_gdt gdt_set_tss_ist gdt_set_tss_ring
  init_gdt-ist isr irq timer =
      (two_words c.stack_isr isr, two_words c.stack_irq irq, two_words c.stack_timer timer)

  init_gdt-tss :
      add64 c.gdt_block tss_offset < u64_mod
      → tss_base (init_gdt c block).tss_descriptor ≡ add64 c.gdt_block tss_offset
  unfolding init_gdt gdt_set_tss_ist gdt_set_tss_ring gdt_init gdt_set_tss
  init_gdt-tss word = tss_descriptor_of-base (add64 c.gdt_block tss_offset) word

-- A page that is cleared has zeros, and the memory below it is as it was.
module _ (libc : Libc) (n : ℕ) (words : ℕ → ℕ) where
  cleared : (i : ℕ) → i < 512 → clear_stack libc (n * 4096) 4096 words (n * 512 + i) ≡ 0
  unfolding clear_stack
  cleared i lt = ground (
    arith,
    libc.memset_words_lem (λ m. words (n * 4096 / 8 + m)) 4096 (n * 512 + i - n * 4096 / 8),
    lt,
  )

  not_cleared : (i : ℕ) → i < n * 512 → clear_stack libc (n * 4096) 4096 words i ≡ words i
  unfolding clear_stack
  not_cleared i lt = ground (arith, lt)

-- What cpu_init leaves, for the five pages from `k` on.
pub record IsInitialized (isrs : ℕ → ℕ) (idt_table k : ℕ) (c : CpuContext) (s t : Cpu)
    : Type 0 where
  pub ring : ring_stack (t.gdts (k * memory_page_size)) 0 ≡ c.stack_kernel
  pub isr : ist_stack (t.gdts (k * memory_page_size)) idt_ist_isr ≡ (k + 2) * memory_page_size
  pub irq : ist_stack (t.gdts (k * memory_page_size)) idt_ist_irq ≡ (k + 4) * memory_page_size
  pub timer :
      ist_stack (t.gdts (k * memory_page_size)) idt_ist_timer ≡ (k + 5) * memory_page_size - 32
  pub tss :
      tss_base (t.gdts (k * memory_page_size)).tss_descriptor ≡ k * memory_page_size + tss_offset
  pub other : (a : ℕ) → (k * memory_page_size == a) ≡ false → t.gdts a ≡ s.gdts a
  pub idt : t.idt ≡ (if s.idt_initialized then s.idt else idt_init isrs idt_table s.idt)
  pub initialized : t.idt_initialized ≡ true
  pub timer_page :
      (i : ℕ)
      → i < 512
      → t.words ((k + 4) * 512 + i) ≡ (if i == 509 then s.paging.pagetable_l4 else 0)
  pub other_stacks : (i : ℕ) → (k + 1) * 512 ≤ i → i < (k + 4) * 512 → t.words i ≡ s.words i
  pub page :
      (j : ℕ)
      → page_used t.paging.pageframe j
        ≡ (if leb k j && ltb j (k + 5) then true else page_used s.paging.pageframe j)

module _ (libc : Libc) (framebuffer : Framebuffer) (isrs : ℕ → ℕ) (shared_idt idt_table address : ℕ)
    (c : CpuContext) (s : Cpu) where
  abbrev k : ℕ
  k = s.paging.pageframe.current_index

  abbrev c' : CpuContext
  c' = with_blocks shared_idt k c

  abbrev a : Cpu
  a = allocated libc s

  -- The state that cpu_init leaves.
  abbrev finished : Cpu
  finished = record {
    paging =
        paging_set_cache_size address cpu_context_size page_pat_write_combine
          (paging_init_pat framebuffer.base framebuffer.pitch framebuffer.height a.paging);
    words = update a.words (c'.stack_timer / 8 + 1) a.paging.pagetable_l4;
    gdts = update a.gdts c'.gdt_block (init_gdt c' (a.gdts c'.gdt_block));
    idt = if a.idt_initialized then a.idt else idt_init isrs idt_table a.idt;
    idt_initialized = true;
  }

  cpu_init-run :
      HasNext 5 s.paging.pageframe
      → cpu_init libc framebuffer isrs shared_idt idt_table address c s ≡ ok c' finished
  unfolding cpu_init paging_get_pagetable_l4
  cpu_init-run h = then_ok _ (cpu_allocate-run libc shared_idt c s h) ∙ refl

  own : finished.gdts (k * memory_page_size) ≡ init_gdt c' (s.gdts (k * memory_page_size))
  own = update_same s.gdts (k * memory_page_size) _

  module _ (h : HasNext 5 s.paging.pageframe) where
    small : k + 5 < 2 ^ 52
    small =
        let few : map_pages s.paging.pageframe < 2 ^ 52 = h.ready.valid.small in
        omega (arith, few, h.inside)

    last : k + 1 + 1 + 2 ≡ k + 4
    last = omega arith

    place : ((k + 5) * memory_page_size - 32) / 8 + 1 ≡ (k + 4) * 512 + 509
    place = omega arith

    written :
        (i : ℕ)
        → finished.words i ≡ (
            if (k + 4) * 512 + 509 == i
            then s.paging.pagetable_l4
            else clear_stack libc ((k + 4) * 4096) 4096 s.words i)
    written i = rw (last, place) refl

    timer_words :
        (i : ℕ)
        → i < 512
        → finished.words ((k + 4) * 512 + i) ≡ (if i == 509 then s.paging.pagetable_l4 else 0)
    timer_words i lt =
        written ((k + 4) * 512 + i) ∙ ground (arith, cleared libc (k + 4) s.words i lt)

    words_below : (i : ℕ) → i < (k + 4) * 512 → finished.words i ≡ s.words i
    words_below i lt = written i ∙ ground (arith, not_cleared libc (k + 4) s.words i lt)

    page_after :
        (j : ℕ)
        → page_used finished.paging.pageframe j
          ≡ (if leb k j && ltb j (k + 5) then true else page_used s.paging.pageframe j)
    unfolding paging_set_cache_size paging_set_cache paging_init_pat
    page_after = page-allocated libc shared_idt c s h

    stacks_of :
        (ist_stack (finished.gdts (k * memory_page_size)) idt_ist_isr ≡ (k + 2) * memory_page_size)
        × (ist_stack (finished.gdts (k * memory_page_size)) idt_ist_irq
            ≡ (k + 4) * memory_page_size)
        × (ist_stack (finished.gdts (k * memory_page_size)) idt_ist_timer
            ≡ (k + 5) * memory_page_size - 32)
    stacks_of = rw own (
        init_gdt-ist c' (s.gdts (k * memory_page_size)) (omega (arith, small))
          (omega (arith, small)) (omega (arith, small)))

    tss_of :
        tss_base (finished.gdts (k * memory_page_size)).tss_descriptor
        ≡ k * memory_page_size + tss_offset
    tss_of =
        let address_of : add64 (k * memory_page_size) tss_offset
            ≡ k * memory_page_size + tss_offset =
          omega (arith, small) in
        ap (λ (b : GdtBlock). tss_base b.tss_descriptor) own
        ∙ init_gdt-tss c' (s.gdts (k * memory_page_size)) (omega (arith, small))
        ∙ address_of

  -- With five free pages in a row from the allocator's current index on, and a kernel stack's address
  -- of 64 bits: cpu_init returns the context with the addresses of the pages. The first of them holds
  -- a block whose TSS descriptor points to its own TSS, and whose TSS has, as the processor reads it,
  -- the kernel stack for ring 0 and the ends of the other pages for the interrupt stacks 1, 2 and 3,
  -- that of 3 lowered by 32 bytes; no other block has changed, and the IDT is initialized, anew only if
  -- it was not. The page of stack 3 is zero but for the address of the page table at its end, and the
  -- pages of the stacks 1 and 2 are as they were. The five pages are in use, and no other page has changed.
  pub cpu_init-IsInitialized :
      HasNext 5 s.paging.pageframe
      → c.stack_kernel < u64_mod
      → (t : Cpu) × (cpu_init libc framebuffer isrs shared_idt idt_table address c s
          ≡ ok (with_blocks shared_idt s.paging.pageframe.current_index c) t)
        × IsInitialized isrs idt_table s.paging.pageframe.current_index c s t
  cpu_init-IsInitialized h word = (
    finished,
    cpu_init-run h,
    record {
      ring = ap (λ b. ring_stack b 0) own ∙ init_gdt-ring c' (s.gdts (k * memory_page_size)) word;
      isr = (stacks_of h).0;
      irq = (stacks_of h).1;
      timer = (stacks_of h).2;
      tss = tss_of h;
      other = λ x e. update_other s.gdts (k * memory_page_size) _ x e;
      idt = refl;
      initialized = refl;
      timer_page = timer_words h;
      other_stacks = λ i from lt. words_below h i lt;
      page = page_after h;
    },
  )
