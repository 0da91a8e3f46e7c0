-- ===== src/Cpu/Tests.antt =====
-- cpu_init of the first processor at an allocator of eight pages.
use visual_os.Base.{◌+◌, ◌*◌, ◌≡◌, refl, false, arith, update}
use visual_os.Base.Libc.{model_libc}
use visual_os.Base.Run.{ok}
use visual_os.Atomic.{bt}
use visual_os.Bitmap.{bitmap_get}
use visual_os.Pageframe.RequestPages.Search.{FreeBetween}
use native.Mathlib.Decide.{ℕ_discrete}
use visual_os.Pageframe.{Pageframe}
use visual_os.Pageframe.Request.{IsReady}
use visual_os.Pageframe.RequestPages.Next.{HasNext}
use visual_os.Text.{Framebuffer}
use visual_os.Descriptors.{GdtBlock, no_entry, new_tss}
use visual_os.Cpu.{Cpu, CpuContext, cpu_init}
use visual_os.Cpu.Allocated.{with_blocks}
use visual_os.Cpu.Initialized.{IsInitialized, cpu_init-IsInitialized}

-- Of the eight pages, 0 and 1 are in use.
abbrev pages : Pageframe
pages = record {
  memory_total_size = 32768;
  memory_used_size = 8192;
  memory_reserved_size = 0;
  pageframemap = record { buffer = update (λ k. 0) 0 0b11000000; size = 1 };
  current_index = 2;
  mutex = 0;
}

pages-IsReady : IsReady pages
unfolding bt
pages-IsReady = record {
  valid = record {
    bytes = λ k. ground arith;
    small = omega arith;
    used_word = omega arith;
    used_pages = refl;
    reserved_word = omega arith;
    reserved_pages = refl;
    current_word = omega arith;
  };
  request_off = refl;
  lock_off = refl;
  free_off = refl;
}

pages-free : FreeBetween pages.pageframemap 2 (2 + 5)
unfolding bitmap_get
pages-free j a b = elim (ℕ_discrete j 2) [
  | yes e ↦ rw e refl
  | no n2 ↦ elim (ℕ_discrete j 3) [
    | yes e ↦ rw e refl
    | no n3 ↦ elim (ℕ_discrete j 4) [
      | yes e ↦ rw e refl
      | no n4 ↦ elim (ℕ_discrete j 5) [
        | yes e ↦ rw e refl
        | no n5 ↦ let e : j ≡ 6 = omega arith in rw e refl
      ]
    ]
  ]
]

pages-HasNext : HasNext 5 pages
pages-HasNext = record { ready = pages-IsReady; inside = omega arith; free = pages-free }

abbrev bsp : CpuContext
bsp = record {
  local_apic_id = 0;
  rsp_userspace = 0;
  gdt_block = 0;
  idt_block = 0;
  stack_kernel = 0x9000;
  stack_isr = 0;
  stack_irq = 0;
  stack_timer_begin = 0;
  stack_timer = 0;
}

abbrev framebuffer : Framebuffer
framebuffer = record { base = 0; width = 32; height = 32; pitch = 128; bpp = 32 }

abbrev no_block : GdtBlock
no_block = record {
  size = 0;
  offset = 0;
  gdt = λ n. record {
    limit_low = 0;
    base_low = 0;
    base_mid = 0;
    access = 0;
    flags = 0;
    base_high = 0;
  };
  tss_descriptor = record {
    limit_low = 0;
    base_low = 0;
    base_mid = 0;
    access = 0;
    flags = 0;
    base_mid2 = 0;
    base_high = 0;
    reserved = 0;
  };
  tss = new_tss;
}

abbrev start : Cpu
start = record {
  paging = record { pageframe = pages; tables = λ a i. 0; pagetable_l4 = 4096 };
  words = λ i. 7;
  gdts = λ a. no_block;
  idt = record { limit = 0; base = 0; idt = λ n. no_entry };
  idt_initialized = false;
}

cpu_init-IsInitialized_example :
    (t : Cpu) × (cpu_init model_libc framebuffer (λ n. n * 16) 0x7000 0x7010 0x7800 bsp start
      ≡ ok (with_blocks 0x7000 2 bsp) t)
    × IsInitialized (λ n. n * 16) 0x7010 2 bsp start t
cpu_init-IsInitialized_example =
    cpu_init-IsInitialized model_libc framebuffer (λ n. n * 16) 0x7000 0x7010 0x7800 bsp start
      pages-HasNext (omega arith)
