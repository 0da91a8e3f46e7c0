-- ===== src/Scheduler/State.antt =====
-- The data of src/kernel/scheduler/scheduler.c and scheduler.h: nodes in a heap, and the queues.
use visual_os.Base.{ℕ, Bool, update}

pub record Registers : Type 0 where
  pub rax : ℕ
  pub rbx : ℕ
  pub rcx : ℕ
  pub rdx : ℕ
  pub rsi : ℕ
  pub rdi : ℕ
  pub rbp : ℕ
  pub r8 : ℕ
  pub r9 : ℕ
  pub r10 : ℕ
  pub r11 : ℕ
  pub r12 : ℕ
  pub r13 : ℕ
  pub r14 : ℕ
  pub r15 : ℕ

pub record ContextFrame : Type 0 where
  pub general : Registers
  pub rip : ℕ
  pub cs : ℕ
  pub rflags : ℕ
  pub rsp : ℕ
  pub ss : ℕ
  pub self : ℕ

pub record Thread : Type 0 where
  pub tid : ℕ
  pub process : ℕ
  pub next : ℕ

pub record Context : Type 0 where
  pub context_frame : ContextFrame
  pub flags : ℕ
  pub error_code : ℕ
  pub task : Thread

pub record SchedulerNode : Type 0 where
  pub context : Context
  pub queue_num : ℕ
  pub previous : ℕ
  pub next : ℕ

pub record SchedulerQueue : Type 0 where
  pub first : ℕ
  pub num : ℕ
  pub flags : ℕ

pub record TaskInitialState : Type 0 where
  pub general : Registers
  pub entry : ℕ
  pub stack : ℕ
  pub rpl : ℕ

-- `nodes` is what each address holds; `live` says which addresses `malloc` has given out. The memory
-- from `s_ticks_table` on is `ticks_table`, and `timer_count` is the register of the timer.
pub record Scheduler : Type 0 where
  pub nodes : ℕ → SchedulerNode
  pub live : ℕ → Bool
  pub queues : ℕ → SchedulerQueue
  pub tid_accumulator : ℕ
  pub ticks_table : ℕ → ℕ
  pub timer_count : ℕ

abbrev pub null : ℕ
null = 0

-- `&s_idle_node`: some address that is not `NULL`.
abbrev pub idle_node : ℕ
idle_node = 8

-- The writes to one field.
abbrev pub set_node : ℕ → SchedulerNode → Scheduler → Scheduler
set_node p n s = record s { nodes = update s.nodes p n }

abbrev pub set_next : ℕ → ℕ → Scheduler → Scheduler
set_next p q s = set_node p (record (s.nodes p) { next = q }) s

abbrev pub set_previous : ℕ → ℕ → Scheduler → Scheduler
set_previous p q s = set_node p (record (s.nodes p) { previous = q }) s

abbrev pub set_flags : ℕ → ℕ → Scheduler → Scheduler
set_flags p f s =
    set_node p (record (s.nodes p) { context = record (s.nodes p).context { flags = f } }) s

abbrev pub set_queue : ℕ → SchedulerQueue → Scheduler → Scheduler
set_queue i q s = record s { queues = update s.queues i q }
