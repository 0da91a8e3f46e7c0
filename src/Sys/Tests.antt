-- ===== src/Sys/Tests.antt =====
-- The theorems about system calls at two buffers, at one number and at eight free pages.
use visual_os.Base.{◌%◌, ◌≡◌, refl, u64_mod, List, [], ◌∷◌, ◌==◌, ◌+◌, arith, inl, inr}
use visual_os.Base.Table.{IsOnly}
use native.Mathlib.Decide.{dec_lt}
use mathlib.Core.Path.{subst}
use visual_os.Atomic.{bt}
use visual_os.Bitmap.{bitmap_get}
use visual_os.Pageframe.{Pageframe, pageframe_request_pages}
use visual_os.Pageframe.Request.{IsReady}
use visual_os.Pageframe.RequestPages.Search.{FreeBetween}
use visual_os.Pageframe.RequestPages.Outcome.{Granted, pageframe_request_pages_lem}
use visual_os.Paging.{Paging}
use visual_os.Paging.Attribute.{nearest_page, round_up}
use visual_os.Sys.Memory.{IsGivenBack, sys_munmap-mmap}
use visual_os.Sys.{
  Iovec, Outputs, SysHandler, SysFunction, sys_handlers, syshandler_get, sys_writev, sys_readv,
}
use visual_os.Sys.Written.{IsWritten, sent, counted, sys_writev-IsWritten}
use visual_os.Sys.Handlers.{syshandler_get-IsOnly}

abbrev outputs : Outputs
outputs = record {
  screen = record {
    framebuffer = record { base = 0; width = 32; height = 32; pitch = 128; bpp = 32 };
    font = record { charsize = 2; body = 0x1000; memory = λ address. 0 };
    pixels = λ q. 0;
    cursor_x = 0;
    cursor_y = 0;
    color_state = 0xffffffff;
  };
  serial = 10 ∷ [];
}

abbrev buffers : List Iovec
buffers = record { iov_base = 5; iov_len = 2 } ∷ record { iov_base = 20; iov_len = 1 } ∷ []

sys_writev-IsWritten_example :
    IsWritten 2 outputs
      (sent (λ a. a) 2 buffers)
      (counted 2 buffers % u64_mod)
      (sys_writev (λ a. a) 2 buffers outputs)
sys_writev-IsWritten_example = sys_writev-IsWritten (λ a. a) 2 buffers outputs

sends : sent (λ a. a) 2 buffers ≡ 5 ∷ 6 ∷ 20 ∷ []
sends = refl

reads : sys_readv 0 buffers ≡ 3
unfolding sys_readv
reads = refl

syshandler_get-IsOnly_example :
    IsOnly
      (λ (h : SysHandler). h.num == 20)
      (λ (h : SysHandler). h.handler)
      SysFunction.stub
      sys_handlers
      (syshandler_get 20)
syshandler_get-IsOnly_example = syshandler_get-IsOnly 20

handles : syshandler_get 20 ≡ SysFunction.writev
unfolding syshandler_get
handles = refl

-- Eight free pages, of which the first two were requested before.
abbrev pages : Pageframe
pages = record {
  memory_total_size = 32768;
  memory_used_size = 0;
  memory_reserved_size = 0;
  pageframemap = record { buffer = λ k. 0; size = 1 };
  current_index = 2;
  mutex = 0;
}

abbrev paging : Paging
paging = record { pageframe = pages; tables = λ a i. 0; pagetable_l4 = 0 }

pages-IsReady : IsReady pages
unfolding bt
pages-IsReady = record {
  valid = record {
    bytes = λ k. omega arith;
    small = omega arith;
    used_word = omega arith;
    used_pages = refl;
    reserved_word = omega arith;
    reserved_pages = refl;
    current_word = omega arith;
  };
  request_off = refl;
  lock_off = refl;
  free_off = refl;
}

page_free : FreeBetween pages.pageframemap 2 (2 + 1)
unfolding bitmap_get
page_free j a b = let e : j ≡ 2 = omega arith in rw e refl

one_page : nearest_page 100 ≡ 1
unfolding nearest_page round_up
one_page = refl

pages-Granted : Granted pages 1 2 (pageframe_request_pages 1 pages)
pages-Granted = elim (pageframe_request_pages_lem pages 1 pages-IsReady (omega arith)) [
  | inl (k, g) ↦ elim (dec_lt 2 k) [
    | yes later ↦ absurd (g.lowest 2 (omega arith) later page_free)
    | no same ↦
        let first : k ≡ 2 = omega (arith, g.from) in
        subst (λ i. Granted pages 1 i (pageframe_request_pages 1 pages)) first g
  ]
  | inr (inl (k, o)) ↦ absurd (omega (arith, o.begins, o.ends))
  | inr (inr f) ↦ absurd (f.no_run 2 (omega arith) (omega arith) page_free)
]

sys_munmap-mmap_example : IsGivenBack 2 0 100 1 0 0 0 2 paging
sys_munmap-mmap_example =
    sys_munmap-mmap 2 0 100 1 0 0 0 2 paging (unfold bt in refl) pages-IsReady
      (rw one_page pages-Granted) (rw one_page (omega arith))
