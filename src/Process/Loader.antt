-- ===== src/Process/Loader.antt =====
-- src/kernel/scheduler/loader.c: the environment of a program that is loaded. The loop over the
-- program's segments does nothing with them, and no process is made.
use visual_os.Base.{ℕ, mul64, sub64}
use visual_os.Base.Run.{Cmd, pure, ◌>>=◌}
use visual_os.Pageframe.{Pageframe, memory_page_size, null, pageframe_request_pages}
use visual_os.Process.{ProcessEnvironment}

abbrev pub loader_default_stack_pages : ℕ
loader_default_stack_pages = 3

abbrev pub stack_virtual_base : ℕ
stack_virtual_base = 0xffff800000000000

-- The structure is the memory that malloc returned.
unfoldable pub loader_create_environment : (stack_pages : ℕ) → Cmd Pageframe ProcessEnvironment
loader_create_environment stack_pages = do
  stack_physical_base ← pageframe_request_pages stack_pages
  pure (record {
    virtual_address = stack_virtual_base;
    physical_address = sub64 stack_physical_base (mul64 stack_pages memory_page_size);
    flags = 0;
    pages = stack_pages;
    next = null;
  })

unfoldable pub loader_execute_elf : Cmd Pageframe (Unit {0})
unfolding loader_create_environment
loader_execute_elf = do environment ← loader_create_environment loader_default_stack_pages; pure tt
