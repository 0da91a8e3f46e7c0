-- ===== src/Process/Tests.antt =====
-- The theorems about processes at an allocator of eight pages and empty queues.
use visual_os.Base.{ℕ, ◌≡◌, refl, false, arith, inl}
use visual_os.Base.Libc.{model_libc}
use visual_os.Base.Run.{Run, ok, out_of_fuel}
use visual_os.Atomic.{bt}
use visual_os.Bitmap.{bitmap_get}
use visual_os.Pageframe.{
  Pageframe, pageframe_request, pageframe_spinlock, request_step, skip_used, take_pages,
  pageframe_lock,
}
use visual_os.Paging.Regions.{paging_map}
use visual_os.Paging.{Paging}
use visual_os.Scheduler.State.{Scheduler}
use visual_os.Scheduler.{new_node}
use visual_os.Scheduler.Queues.{Holds}
use visual_os.Scheduler.Add.{IsFree}
use visual_os.Process.{ProcessEnvironment, Process, Processes, process_pagemap, process_create_new}
use visual_os.Process.Created.{
  IsCreated, initial_state, process_create_new-IsCreated, process_create_new-out_of_fuel,
}

abbrev pages : Pageframe
pages = record {
  memory_total_size = 32768;
  memory_used_size = 0;
  memory_reserved_size = 0;
  pageframemap = record { buffer = λ k. 0; size = 1 };
  current_index = 2;
  mutex = 0;
}

abbrev paging : Paging
paging = record { pageframe = pages; tables = λ a i. 0; pagetable_l4 = 0 }

-- An environment of no pages, without a stack.
abbrev no_stack : ℕ → ProcessEnvironment
no_stack a = record { virtual_address = 0; physical_address = 0; flags = 0; pages = 0; next = 0 }

abbrev paging_after : Run Paging ℕ → Paging
paging_after (ok a t) = t
paging_after Run.spins = paging
paging_after out_of_fuel = paging
paging_after Run.overruns = paging

abbrev scheduler : Scheduler
scheduler = record {
  nodes = λ p. new_node 0 0 (initial_state 0 0);
  live = λ p. false;
  queues = λ i. record { first = 0; num = 0; flags = 0 };
  tid_accumulator = 0;
  ticks_table = λ i. 0;
  timer_count = 0;
}

scheduler-Holds : Holds scheduler 1 (λ j. 0)
scheduler-Holds = record {
  few = omega arith;
  empty = λ e. refl;
  first = λ e. absurd (omega arith);
  ring = record {
    distinct = λ k j a b e. absurd (omega arith);
    next = λ k a. absurd (omega arith);
    previous = λ k a. absurd (omega arith);
  };
  tasks = λ j a. absurd (omega arith);
}

abbrev no_process : Process
no_process = record {
  pid = 0;
  pml4 = 0;
  flags = 0;
  thread_contexts = 0;
  parent = 0;
  next = 0;
  child_list = 0;
}

abbrev only_root : Processes
only_root = record {
  processes = λ p. no_process;
  processes_num = 0;
  pid_accumulator = 1;
  scheduler = scheduler;
  paging = paging;
}

abbrev mapped : (environment : ℕ) → Paging
mapped environment = paging_after (process_pagemap model_libc no_stack 2 environment paging)

maps : process_pagemap model_libc no_stack 2 0 paging ≡ ok 8192 (mapped 0)
unfolding process_pagemap pageframe_request pageframe_spinlock request_step skip_used bitmap_get
    take_pages pageframe_lock
maps = refl

maps_one : process_pagemap model_libc no_stack 2 100 paging ≡ ok 8192 (mapped 100)
unfolding process_pagemap pageframe_request pageframe_spinlock request_step skip_used bitmap_get
    take_pages pageframe_lock paging_map
maps_one = refl

no_lock : bt 0 0 ≡ false
unfolding bt
no_lock = refl

new_task : IsFree scheduler 200
new_task = record {
  free = refl;
  not_null = λ e. absurd (omega arith);
  not_idle = λ e. absurd (omega arith);
}

process_create_new-IsCreated_example :
    IsCreated only_root 300 200 0 8192 1
      (initial_state 0x1000 0)
      (λ j. 0)
      (mapped 0)
      (process_create_new model_libc no_stack 2 300 200 0 0 0x1000 1 only_root)
process_create_new-IsCreated_example =
    process_create_new-IsCreated model_libc no_stack 1 300 200 0 0 0x1000 1 8192 only_root
      (mapped 0) (λ j. 0) (λ e. absurd (omega arith)) no_lock refl maps (inl refl) scheduler-Holds
      new_task (omega arith) no_lock

process_create_new-out_of_fuel_example :
    process_create_new model_libc no_stack 2 300 200 0 100 0x1000 1 only_root ≡ out_of_fuel
unfolding bt
process_create_new-out_of_fuel_example =
    process_create_new-out_of_fuel model_libc no_stack 2 300 200 0 100 0x1000 1 8192 only_root
      (mapped 100) no_lock maps_one (λ e. absurd (omega arith)) refl
