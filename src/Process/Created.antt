-- ===== src/Process/Created.antt =====
-- `process_create_new`: the process that it makes, and the environments for which it never returns.
use visual_os.Base.{
  ℕ, zero, suc, ◌+◌, ◌^◌, ◌<◌, ◌≡◌, ◌≢◌, ◌⊎◌, inl, inr, refl, true, false, arith, ◌==◌,
  if◌then◌else◌, update, add64, ◌∙◌, ==_ne, ==_refl, ap,
}
use visual_os.Base.Libc.{Libc}
use visual_os.Base.Run.{Run, ok, out_of_fuel, Cmd, then_ok, then_out_of_fuel}
use visual_os.Atomic.{bt, bts, atomic_accumulate, atomic_unlock}
use visual_os.Atomic.Laws.{btr-bts}
use visual_os.Pageframe.{null}
use visual_os.Paging.{Paging}
use visual_os.Scheduler.State.{TaskInitialState, Scheduler}
use visual_os.Scheduler.{queue_flag_locked, scheduler_add_task}
use visual_os.Scheduler.Queues.{Holds}
use visual_os.Scheduler.Add.{IsFree, Added, scheduler_add_task-Added}
use visual_os.Process.{
  ProcessEnvironment, Process, Processes, process_flag_locked, process_environment_stack,
  process_rpl, root, no_registers, set_process, in_paging, in_scheduler, process_spinlock,
  process_unlock, last_child, process_add, set_task_process, process_pagemap, find_stack,
  process_create_new,
}

spinlock-ok :
    (process : ℕ) (s : Processes)
    → bt (s.processes process).flags process_flag_locked ≡ false
    → process_spinlock process s
      ≡ ok tt (
          set_process process
            (record (s.processes process) {
              flags = (bts (s.processes process).flags process_flag_locked).0;
            })
            s)
unfolding process_spinlock bts
spinlock-ok process s off = ground (arith, off)

in_paging-ok :
    {A : Type 0} (m : Cmd Paging A) (s : Processes) {a : A} {t : Paging}
    → m s.paging ≡ ok a t
    → in_paging m s ≡ ok a (record s { paging = t })
in_paging-ok m s e = rw (e, in_paging) refl

in_scheduler-ok :
    {A : Type 0} (m : Cmd Scheduler A) (s : Processes) {a : A} {t : Scheduler}
    → m s.scheduler ≡ ok a t
    → in_scheduler m s ≡ ok a (record s { scheduler = t })
in_scheduler-ok m s e = rw (e, in_scheduler) refl

module _ (libc : Libc) (environments : ℕ → ProcessEnvironment) where
  -- An environment that is not the end of the list and has no stack keeps the search for ever.
  pub find_stack-out_of_fuel :
      (fuel environment : ℕ) (s : Processes)
      → environment ≢ null
      → bt (environments environment).flags process_environment_stack ≡ false
      → find_stack libc environments fuel environment s ≡ out_of_fuel
  unfolding find_stack
  find_stack-out_of_fuel zero environment s ne none_here = refl
  find_stack-out_of_fuel (suc fuel) environment s ne none_here =
      rw (==_ne environment null ne, none_here, find_stack)
        (find_stack-out_of_fuel fuel environment s ne none_here)

  abbrev stack_of : ℕ → ℕ
  stack_of environment =
      if environment == null then null else (environments environment).virtual_address

  -- The search ends at once for an empty list or a stack in front.
  find_stack-ok :
      (fuel environment : ℕ) (s : Processes)
      → (environment ≡ null)
        ⊎ ((environment ≢ null)
            × (bt (environments environment).flags process_environment_stack ≡ true))
      → find_stack libc environments (suc fuel) environment s ≡ ok (stack_of environment) s
  unfolding find_stack
  find_stack-ok fuel environment s (inl e) = rw e refl
  find_stack-ok fuel environment s (inr (ne, here)) =
      rw (==_ne environment null ne, here, find_stack) refl

abbrev pub parent_of : ℕ → ℕ
parent_of parent = if parent == null then root else parent

parent_of-parent_of : (parent : ℕ) → parent_of (parent_of parent) ≡ parent_of parent
parent_of-parent_of parent = ground arith

-- What the new process is.
abbrev pub process_record : (pid pml4 node parent : ℕ) → Process
process_record pid pml4 node parent = record {
  pid = pid;
  pml4 = pml4;
  flags = 0;
  thread_contexts = node;
  parent = parent_of parent;
  next = null;
  child_list = null;
}

abbrev pub initial_state : (entry stack : ℕ) → TaskInitialState
initial_state entry stack = record {
  general = no_registers;
  entry = entry;
  stack = stack;
  rpl = process_rpl;
}

-- What `process_create_new` leaves of the state `s`.
pub record IsCreated (s : Processes) (process node parent pml4 queue_num : ℕ)
    (initial : TaskInitialState) (seq : ℕ → ℕ) (t : Paging) (r : Run Processes (Unit {0}))
    : Type 0 where
  pub after : Processes
  pub run : r ≡ ok tt after
  pub made : after.processes process ≡ process_record s.pid_accumulator pml4 node parent
  pub others : (p : ℕ) → p ≢ process → after.processes p ≡ s.processes p
  pub next_pid : after.pid_accumulator ≡ add64 s.pid_accumulator 1
  pub counted : after.processes_num ≡ add64 s.processes_num 1
  pub mapped : after.paging ≡ t
  pub added :
      Added s.scheduler node queue_num initial seq
        (scheduler_add_task node initial queue_num s.scheduler)
  pub task : after.scheduler ≡ set_task_process node process added.after

module _ (libc : Libc) (environments : ℕ → ProcessEnvironment) (fuel : ℕ)
    (process node parent environment entry queue_num pml4 : ℕ) (s : Processes) (t : Paging)
    (seq : ℕ → ℕ) (fresh : process ≢ parent_of parent)
    (off : bt (s.processes (parent_of parent)).flags process_flag_locked ≡ false)
    (no_children : (s.processes (parent_of parent)).child_list ≡ null)
    (listed : process_pagemap libc environments (suc fuel) environment s.paging ≡ ok pml4 t)
    (stack_first : (environment ≡ null)
      ⊎ ((environment ≢ null)
          × (bt (environments environment).flags process_environment_stack ≡ true)))
    (h : Holds s.scheduler queue_num seq) (free : IsFree s.scheduler node)
    (room : (s.scheduler.queues queue_num).num + 1 < 2 ^ 63)
    (queue_off : bt (s.scheduler.queues queue_num).flags queue_flag_locked ≡ false) where
  abbrev initial : TaskInitialState
  initial = initial_state entry (stack_of libc environments environment)

  the_task :
      Added s.scheduler node queue_num initial seq
        (scheduler_add_task node initial queue_num s.scheduler)
  the_task = scheduler_add_task-Added s.scheduler node queue_num initial seq h free room queue_off

  abbrev held : Process
  held = record (s.processes (parent_of parent)) {
    flags = (bts (s.processes (parent_of parent)).flags process_flag_locked).0;
  }

  -- The state before the call of `_process_add`.
  abbrev linked : Processes
  linked = record s {
    processes =
        update
          (update (update s.processes (parent_of parent) held) process
            (process_record s.pid_accumulator pml4 null parent))
          process (process_record s.pid_accumulator pml4 node parent);
    pid_accumulator = add64 s.pid_accumulator 1;
    scheduler = set_task_process node process the_task.after;
    paging = t;
  }

  parent_held : linked.processes (parent_of parent) ≡ held
  parent_held = ground (arith, fresh)

  add-ok :
      process_add (suc fuel) (parent_of parent) process linked
      ≡ ok tt (record linked { processes_num = add64 s.processes_num 1 })
  unfolding process_add last_child atomic_accumulate
  add-ok =
      rw
        (
          parent_of-parent_of parent,
          ap (λ (p : Process). p.child_list) parent_held ∙ no_children,
          last_child,
        )
        refl

  abbrev locked : Processes
  locked = set_process (parent_of parent) held s

  run-ok :
      process_create_new libc environments
        (suc fuel)
        process
        node
        parent
        environment
        entry
        queue_num
        s
      ≡ process_unlock
          (parent_of parent)
          (record linked { processes_num = add64 s.processes_num 1 })
  unfolding process_create_new atomic_accumulate
  run-ok =
      then_ok _ (spinlock-ok (parent_of parent) s off)
      ∙ then_ok _ (
          in_paging-ok (process_pagemap libc environments (suc fuel) environment)
            (record locked { pid_accumulator = add64 s.pid_accumulator 1 }) listed)
      ∙ then_ok _ (
          find_stack-ok libc environments fuel environment
            (set_process process (process_record s.pid_accumulator pml4 null parent)
              (record locked { pid_accumulator = add64 s.pid_accumulator 1; paging = t }))
            stack_first)
      ∙ then_ok _ (
          in_scheduler-ok (scheduler_add_task node initial queue_num)
            (set_process process (process_record s.pid_accumulator pml4 null parent)
              (record locked { pid_accumulator = add64 s.pid_accumulator 1; paging = t }))
            the_task.run)
      ∙ rw (==_refl process) (then_ok (λ u. process_unlock (parent_of parent)) add-ok)

  abbrev unlocked : Processes
  unlocked =
      set_process (parent_of parent) (s.processes (parent_of parent))
        (record linked { processes_num = add64 s.processes_num 1 })

  unlock-ok :
      process_unlock (parent_of parent) (record linked { processes_num = add64 s.processes_num 1 })
      ≡ ok tt unlocked
  unfolding process_unlock atomic_unlock
  unlock-ok =
      rw (parent_held, btr-bts (s.processes (parent_of parent)).flags process_flag_locked off) refl

  -- For a parent whose lock bit is off and that has no children, segments whose pagemap is made, a
  -- stack as the first of them or no segment at all, and free memory for a task of a queue:
  -- process_create_new returns. The process has the next pid, the pagemap and its task, which is added
  -- to the queue at privilege level 3; the number of processes grows by one; and every other process is
  -- as before, the parent with its list of children too.
  pub process_create_new-IsCreated : IsCreated s process node parent pml4 queue_num initial seq t (
      process_create_new libc environments
        (suc fuel)
        process
        node
        parent
        environment
        entry
        queue_num
        s)
  process_create_new-IsCreated = record {
    after = unlocked;
    run = run-ok ∙ unlock-ok;
    made = ground (arith, fresh);
    others = λ p ne. ground (arith, fresh);
    next_pid = refl;
    counted = refl;
    mapped = refl;
    added = the_task;
    task = refl;
  }

module _ (libc : Libc) (environments : ℕ → ProcessEnvironment) where
  -- For a parent whose lock bit is off, and segments whose pagemap is made and of which the first is not
  -- the stack: process_create_new has not returned after any number of rounds.
  pub process_create_new-out_of_fuel :
      (fuel process node parent environment entry queue_num pml4 : ℕ) (s : Processes) (t : Paging)
      → bt (s.processes (parent_of parent)).flags process_flag_locked ≡ false
      → process_pagemap libc environments fuel environment s.paging ≡ ok pml4 t
      → environment ≢ null
      → bt (environments environment).flags process_environment_stack ≡ false
      → process_create_new libc environments fuel process node parent environment entry queue_num s
        ≡ out_of_fuel
  unfolding process_create_new atomic_accumulate
  process_create_new-out_of_fuel fuel process node parent environment entry queue_num pml4 s t off
        listed ne none_here =
      then_ok _ (spinlock-ok (parent_of parent) s off)
      ∙ then_ok _ (in_paging-ok (process_pagemap libc environments fuel environment) _ listed)
      ∙ then_out_of_fuel _
          (find_stack-out_of_fuel libc environments fuel environment _ ne none_here)
