-- ===== src/Cpu.antt =====
-- src/kernel/x86_64/cpu.c and cpu.h: the structures and stacks of a processor. The instructions that
-- load registers (`gdt_load`, `idt_load`, `paging_load_pat`, `cpu_enable_features`, `syscall_enable`)
-- and the line of the log are left out.
pub mod Allocated
pub mod Initialized
mod Tests
use visual_os.Base.{
  ℕ, ◌+◌, ◌*◌, ◌/◌, ◌-◌, Bool, true, false, ltb, if◌then◌else◌, add64, mul64, sub64, update,
}
use visual_os.Base.Libc.{Libc}
use visual_os.Base.Run.{ok, spins, out_of_fuel, overruns, Cmd, pure, gets, modify, ◌>>=◌, ◌>>◌}
use visual_os.Pageframe.{memory_page_size, pageframe_request_pages}
use visual_os.Paging.{Paging, in_pageframe, paging_get_pagetable_l4}
use visual_os.Paging.Attribute.{nearest_page, paging_set_cache_size}
use visual_os.Paging.Regions.{paging_init_pat}
use visual_os.Text.{Framebuffer}
use visual_os.Descriptors.{
  IdtBlock, GdtBlock, idt_ist_isr, idt_ist_irq, idt_ist_timer, gdt_init, gdt_set_tss_ring,
  gdt_set_tss_ist, idt_init,
}

pub record CpuContext : Type 0 where
  pub local_apic_id : ℕ
  pub rsp_userspace : ℕ
  pub gdt_block : ℕ
  pub idt_block : ℕ
  pub stack_kernel : ℕ
  pub stack_isr : ℕ
  pub stack_irq : ℕ
  pub stack_timer_begin : ℕ
  pub stack_timer : ℕ

abbrev pub cpu_bsp_stack_pages : ℕ
cpu_bsp_stack_pages = 1

abbrev pub cpu_stack_pages_isr : ℕ
cpu_stack_pages_isr = 1

abbrev pub cpu_stack_pages_irq : ℕ
cpu_stack_pages_irq = 2

abbrev pub cpu_stack_pages_timer : ℕ
cpu_stack_pages_timer = 1

-- `PAGE_PAT_WRITE_COMBINE`
abbrev pub page_pat_write_combine : ℕ
page_pat_write_combine = 1

-- `sizeof` of `struct CPUContext`, `struct TimerStackTop` and `struct GDTBlock`, and the offsets of
-- `gdt` and `tss` in the last.
abbrev pub cpu_context_size : ℕ
cpu_context_size = 68

abbrev pub timer_stack_top_size : ℕ
timer_stack_top_size = 32

abbrev pub gdt_block_size : ℕ
gdt_block_size = 178

abbrev pub gdt_offset : ℕ
gdt_offset = 10

abbrev pub tss_offset : ℕ
tss_offset = 74

-- `words k` is what memory holds at `8 * k`; `gdts` are the blocks by their addresses, and `idt` is the
-- one block that all processors share. `words` is read and written only where the stacks are: the
-- blocks of the GDTs, the IDT and the page tables lie in other pages and are kept apart from it.
pub record Cpu : Type 0 where
  pub paging : Paging
  pub words : ℕ → ℕ
  pub gdts : ℕ → GdtBlock
  pub idt : IdtBlock
  pub idt_initialized : Bool

abbrev pub in_paging : {A : Type 0} → Cmd Paging A → Cmd Cpu A
in_paging m s = elim (m s.paging) [
  | ok a t ↦ ok a (record s { paging = t })
  | spins ↦ spins
  | out_of_fuel ↦ out_of_fuel
  | overruns ↦ overruns
]

-- `memset(stack, 0, size)` on the memory's words.
unfoldable pub clear_stack : Libc → (stack size : ℕ) → (ℕ → ℕ) → ℕ → ℕ
clear_stack libc stack size words k =
    let first = stack / 8 in
    if ltb k first then words k else libc.memset_words (λ i. words (first + i)) size (k - first)

-- `_cpu_allocate_stack`
unfoldable pub cpu_allocate_stack : Libc → (pages : ℕ) → (clear : Bool) → Cmd Cpu ℕ
unfolding clear_stack
cpu_allocate_stack libc pages clear = do
  stack ← in_paging (in_pageframe (pageframe_request_pages pages))
  modify (λ s. record s {
    words =
        if clear then clear_stack libc stack (mul64 pages memory_page_size) s.words else s.words;
  })
  pure (add64 stack (mul64 pages memory_page_size))

-- `shared_idt` is the address of `s_shared_idt`.
unfoldable pub cpu_allocate : Libc → (shared_idt : ℕ) → CpuContext → Cmd Cpu CpuContext
unfolding cpu_allocate_stack nearest_page
cpu_allocate libc shared_idt cpu_context = do
  gdt_block ← in_paging (in_pageframe (pageframe_request_pages (nearest_page gdt_block_size)))
  stack_isr ← cpu_allocate_stack libc cpu_stack_pages_isr false
  stack_irq ← cpu_allocate_stack libc cpu_stack_pages_irq false
  stack_timer ← cpu_allocate_stack libc cpu_stack_pages_timer true
  pure (record cpu_context {
    gdt_block = gdt_block;
    idt_block = shared_idt;
    stack_isr = stack_isr;
    stack_irq = stack_irq;
    stack_timer_begin = sub64 stack_timer (cpu_stack_pages_timer * memory_page_size);
    stack_timer = sub64 stack_timer timer_stack_top_size;
  })

-- The block of a processor: its segments, and its stacks in the TSS.
unfoldable pub init_gdt : CpuContext → GdtBlock → GdtBlock
unfolding gdt_init gdt_set_tss_ring gdt_set_tss_ist
init_gdt c block = gdt_set_tss_ist idt_ist_timer c.stack_timer (
    gdt_set_tss_ist idt_ist_irq c.stack_irq (
      gdt_set_tss_ist idt_ist_isr c.stack_isr (
        gdt_set_tss_ring 0 c.stack_kernel
          (gdt_init (add64 c.gdt_block gdt_offset) (add64 c.gdt_block tss_offset) block))))

-- `address` is that of the context and `idt_table` that of the shared block's table; `isrs num` is the
-- address of `isr##num`.
unfoldable pub cpu_init :
    Libc
    → Framebuffer
    → (isrs : ℕ → ℕ) → (shared_idt idt_table address : ℕ) → CpuContext
    → Cmd Cpu CpuContext
unfolding cpu_allocate init_gdt idt_init
cpu_init libc framebuffer isrs shared_idt idt_table address cpu_context = do
  c ← cpu_allocate libc shared_idt cpu_context
  pagetable_l4 ← gets (λ s. paging_get_pagetable_l4 s.paging)
  modify (λ s. record s { words = update s.words (c.stack_timer / 8 + 1) pagetable_l4 })
  modify (λ s. record s { gdts = update s.gdts c.gdt_block (init_gdt c (s.gdts c.gdt_block)) })
  modify (λ s. record s {
    idt = if s.idt_initialized then s.idt else idt_init isrs idt_table s.idt;
    idt_initialized = true;
  })
  in_paging (modify (paging_init_pat framebuffer.base framebuffer.pitch framebuffer.height))
  in_paging (modify (paging_set_cache_size address cpu_context_size page_pat_write_combine))
  pure c

-- `s_cpu_bsp`, whose stack ends `g_bsp_stack`, with what the C language sets to 0.
unfoldable pub cpu_bsp : (bsp_stack : ℕ) → CpuContext
cpu_bsp bsp_stack = record {
  local_apic_id = 0;
  rsp_userspace = 0;
  gdt_block = 0;
  idt_block = 0;
  stack_kernel = bsp_stack + memory_page_size * cpu_bsp_stack_pages;
  stack_isr = 0;
  stack_irq = 0;
  stack_timer_begin = 0;
  stack_timer = 0;
}

unfoldable pub cpu_set_bsp_kernel_stack : (stack : ℕ) → CpuContext → CpuContext
cpu_set_bsp_kernel_stack stack s_cpu_bsp = record s_cpu_bsp { stack_kernel = stack }
