-- ===== src/Process.antt =====
-- src/kernel/scheduler/process.c and process.h: processes. `processes` is what the heap holds at
-- each address, `environments` the lists of segments that the caller made; an address that malloc
-- returned is an argument.
pub mod Created
pub mod Loader
mod Tests
use visual_os.Base.{ℕ, zero, suc, ◌+◌, Bool, true, false, none, some, ◌==◌, if◌then◌else◌, update}
use visual_os.Base.Libc.{Libc}
use visual_os.Base.Run.{Run, ok, spins, out_of_fuel, overruns, Cmd, pure, gets, modify, ◌>>=◌, ◌>>◌}
use visual_os.Atomic.{bt, atomic_spinlock, atomic_unlock, atomic_accumulate}
use visual_os.Pageframe.{null, pageframe_request}
use visual_os.Paging.{Paging, in_pageframe, paging_get_pagetable_l4}
use visual_os.Paging.Attribute.{page_directory_writable, paging_set_attribute}
use visual_os.Paging.Regions.{paging_map}
use visual_os.Scheduler.State.{
  Registers, TaskInitialState, Scheduler, SchedulerNode, Context, Thread, set_node,
}
use visual_os.Scheduler.{scheduler_add_task}

pub record ProcessEnvironment : Type 0 where
  pub virtual_address : ℕ
  pub physical_address : ℕ
  pub flags : ℕ
  pub pages : ℕ
  pub next : ℕ

-- `thread_contexts` is the address of a task's node, whose context is its first field.
pub record Process : Type 0 where
  pub pid : ℕ
  pub pml4 : ℕ
  pub flags : ℕ
  pub thread_contexts : ℕ
  pub parent : ℕ
  pub next : ℕ
  pub child_list : ℕ

abbrev pub process_flag_locked : ℕ
process_flag_locked = 0

abbrev pub process_environment_writable : ℕ
process_environment_writable = 2

abbrev pub process_environment_stack : ℕ
process_environment_stack = 4

abbrev pub process_rpl : ℕ
process_rpl = 3

-- `&s_root`: some address that is not `NULL`.
abbrev pub root : ℕ
root = 16

pub record Processes : Type 0 where
  pub processes : ℕ → Process
  pub processes_num : ℕ
  pub pid_accumulator : ℕ
  pub scheduler : Scheduler
  pub paging : Paging

abbrev pub in_paging : {A : Type 0} → Cmd Paging A → Cmd Processes A
in_paging m s = elim (m s.paging) [
  | ok a t ↦ ok a (record s { paging = t })
  | spins ↦ spins
  | out_of_fuel ↦ out_of_fuel
  | overruns ↦ overruns
]

abbrev pub in_scheduler : {A : Type 0} → Cmd Scheduler A → Cmd Processes A
in_scheduler m s = elim (m s.scheduler) [
  | ok a t ↦ ok a (record s { scheduler = t })
  | spins ↦ spins
  | out_of_fuel ↦ out_of_fuel
  | overruns ↦ overruns
]

abbrev pub set_process : ℕ → Process → Processes → Processes
set_process p value s = record s { processes = update s.processes p value }

unfoldable pub process_spinlock : ℕ → Cmd Processes (Unit {0})
unfolding atomic_spinlock
process_spinlock process s =
    elim (atomic_spinlock (s.processes process).flags process_flag_locked) [
      | none ↦ spins
      | some word ↦ ok tt (set_process process (record (s.processes process) { flags = word }) s)
    ]

unfoldable pub process_unlock : ℕ → Cmd Processes (Unit {0})
unfolding atomic_unlock
process_unlock process = modify (λ s.
    set_process process
      (record (s.processes process) {
        flags = (atomic_unlock (s.processes process).flags process_flag_locked).0;
      })
      s)

-- The walk to the end of the child list, on fuel; nothing is linked there.
unfoldable pub last_child : (fuel last : ℕ) → Cmd Processes (Unit {0})
last_child zero last s = out_of_fuel
last_child (suc fuel) last s = elim (last == null) [
  | true ↦ ok tt s
  | false ↦ last_child fuel (s.processes last).next s
]

unfoldable pub process_add : (fuel parent process : ℕ) → Cmd Processes (Unit {0})
unfolding last_child atomic_accumulate
process_add fuel parent process = do
  let parent' = if parent == null then root else parent
  first ← gets (λ s. (s.processes parent').child_list)
  last_child fuel first
  modify (λ s. record s { processes_num = (atomic_accumulate s.processes_num 1).0 })

-- The registers of a `SchedulerTaskInitialState` that names none.
abbrev pub no_registers : Registers
no_registers = record {
  rax = 0;
  rbx = 0;
  rcx = 0;
  rdx = 0;
  rsi = 0;
  rdi = 0;
  rbp = 0;
  r8 = 0;
  r9 = 0;
  r10 = 0;
  r11 = 0;
  r12 = 0;
  r13 = 0;
  r14 = 0;
  r15 = 0;
}

-- `node->context.task.process = process`
unfoldable pub set_task_process : (node process : ℕ) → Scheduler → Scheduler
set_task_process node process s =
    let n = s.nodes node in
    set_node node
      (record n {
        context = record n.context { task = record n.context.task { process = process } };
      })
      s

module _ (libc : Libc) (environments : ℕ → ProcessEnvironment) where
  -- One round of the loop of `_process_pagemap`.
  unfoldable pub map_environment : (pml4 : ℕ) → ProcessEnvironment → Cmd Paging (Unit {0})
  map_environment pml4 e = do
    paging_map libc pml4 e.virtual_address e.physical_address e.pages
    if bt e.flags process_environment_writable
        then modify
            (paging_set_attribute pml4 e.virtual_address e.pages page_directory_writable true)
        else pure tt

  -- The loop, on fuel: a list that is a ring is followed for ever.
  unfoldable pub pagemap_loop : (fuel pml4 environment : ℕ) → Cmd Paging (Unit {0})
  unfolding map_environment
  pagemap_loop zero pml4 environment = λ s. out_of_fuel
  pagemap_loop (suc fuel) pml4 environment = elim (environment == null) [
    | true ↦ pure tt
    | false ↦ do
      map_environment pml4 (environments environment)
      pagemap_loop fuel pml4 (environments environment).next
  ]

  unfoldable pub process_pagemap : (fuel environment : ℕ) → Cmd Paging ℕ
  unfolding pagemap_loop
  process_pagemap fuel environment = do
    pml4 ← in_pageframe pageframe_request
    pagemap_loop fuel pml4 environment
    pure pml4

  -- The search for the stack, on fuel: the loop does not go on to the next environment.
  unfoldable pub find_stack : (fuel current_environment : ℕ) → Cmd Processes ℕ
  find_stack zero current_environment = λ s. out_of_fuel
  find_stack (suc fuel) current_environment = elim (current_environment == null) [
    | true ↦ pure null
    | false ↦ elim (bt (environments current_environment).flags process_environment_stack) [
      | true ↦ pure (environments current_environment).virtual_address
      | false ↦ find_stack fuel current_environment
    ]
  ]

  -- `process` and `node` are what the two calls of malloc return.
  unfoldable pub process_create_new :
      (fuel process node parent environment entry queue_num : ℕ) → Cmd Processes (Unit {0})
  unfolding process_spinlock process_pagemap find_stack set_task_process process_add process_unlock
      atomic_accumulate
  process_create_new fuel process node parent environment entry queue_num = do
    let parent' = if parent == null then root else parent
    process_spinlock parent'
    pid ← gets (λ s. (atomic_accumulate s.pid_accumulator 1).1)
    modify (λ s. record s { pid_accumulator = (atomic_accumulate s.pid_accumulator 1).0 })
    pml4 ← in_paging (process_pagemap fuel environment)
    modify (
        set_process process (record {
          pid = pid;
          pml4 = pml4;
          flags = 0;
          thread_contexts = null;
          parent = parent';
          next = null;
          child_list = null;
        }))
    stack ← find_stack fuel environment
    let new_state : TaskInitialState = record {
      general = no_registers;
      entry = entry;
      stack = stack;
      rpl = process_rpl;
    }
    task ← in_scheduler (scheduler_add_task node new_state queue_num)
    modify (λ s. set_process process (record (s.processes process) { thread_contexts = task }) s)
    modify (λ s. record s {
      scheduler = set_task_process (s.processes process).thread_contexts process s.scheduler;
    })
    process_add fuel parent' process
    process_unlock parent'

unfoldable pub process_init : Processes → Processes
process_init s =
    set_process root (record (s.processes root) { pml4 = paging_get_pagetable_l4 s.paging }) s
