-- ===== src/Scheduler/Tests.antt =====
-- Runs of scheduler.c, and the theorems about it at three tasks in queue 0.
use native.Mathlib.Decide.{ℕ_discrete}
use visual_os.Base.{
  ℕ, ◌+◌, ◌*◌, ◌-◌, ◌<◌, ◌≡◌, refl, true, false, ◌==◌, if◌then◌else◌, arith, inl, u64_mod,
}
use visual_os.Base.Run.{ok}
use visual_os.Atomic.{bt}
use visual_os.Scheduler.State.{Registers, SchedulerNode, TaskInitialState, Scheduler}
use visual_os.Scheduler.{new_node, scheduler_add_task, scheduler_next_task, leave_task}
use visual_os.Scheduler.Ring.{Ring}
use visual_os.Scheduler.Queues.{Holds}
use visual_os.Scheduler.Left.{Left, leave_task-Left}
use visual_os.Scheduler.Next.{AllHold, Given, Switched, idle-Given, next_task-Switched}
use visual_os.Scheduler.Turns.{Turn, turns, turns-Fair}
use visual_os.Scheduler.Add.{IsFree, Added, scheduler_add_task-Added}

abbrev no_registers : Registers
no_registers = record {
  rax = 0;
  rbx = 0;
  rcx = 0;
  rdx = 0;
  rsi = 0;
  rdi = 0;
  rbp = 0;
  r8 = 0;
  r9 = 0;
  r10 = 0;
  r11 = 0;
  r12 = 0;
  r13 = 0;
  r14 = 0;
  r15 = 0;
}

abbrev a_task : TaskInitialState
a_task = record { general = no_registers; entry = 0x1000; stack = 0x8000; rpl = 3 }

-- The task at `p`, between two others; the task at 11 is locked.
abbrev node_at : (p previous next flags : ℕ) → SchedulerNode
node_at p previous next flags =
    let n : SchedulerNode = new_node p 0 a_task in
    record n { previous = previous; next = next; context = record n.context { flags = flags } }

abbrev three_tasks : Scheduler
three_tasks = record {
  nodes = λ p.
      if p == 11
      then node_at 0 13 12 1
      else if p == 12
      then node_at 1 11 13 0
      else if p == 13
      then node_at 2 12 11 0
      else node_at 9 0 0 0;
  live = λ p. if p == 11 then true else if p == 12 then true else p == 13;
  queues = λ i.
      if i == 0
      then record { first = 11; num = 3; flags = 0 }
      else record { first = 0; num = 0; flags = 0 };
  tid_accumulator = 3;
  ticks_table = λ i. 0x10000 * (i + 1);
  timer_count = 0;
}

abbrev tasks : ℕ → ℕ
tasks j = j + 11

abbrev all_tasks : ℕ → ℕ → ℕ
all_tasks i = tasks

three-Ring : Ring three_tasks.nodes 3 tasks
three-Ring = record {
  distinct = λ i j a b e. omega arith;
  next = λ i a. ground arith;
  previous = λ i a. ground arith;
}

three-Holds : Holds three_tasks 0 tasks
three-Holds = record {
  few = omega arith;
  empty = λ e. absurd (omega arith);
  first = λ e. refl;
  ring = three-Ring;
  tasks = λ j a. record {
    queue_num = ground arith;
    live = ground arith;
    not_null = λ e. absurd (omega arith);
    not_idle = λ e. absurd (omega arith);
  };
}

empty-Holds : (i : ℕ) → 0 < i → Holds three_tasks i tasks
empty-Holds i more =
    let none_there : three_tasks.queues i ≡ record { first = 0; num = 0; flags = 0 } =
      ground arith in
    record {
      few = ground arith;
      empty = λ e. ground arith;
      first = λ e. absurd (ground (arith, none_there));
      ring = record {
        distinct = λ k j a b e. omega arith;
        next = λ k a. absurd (ground (arith, none_there));
        previous = λ k a. absurd (ground (arith, none_there));
      };
      tasks = λ j a. absurd (ground (arith, none_there));
    }

three-AllHold : AllHold three_tasks all_tasks
three-AllHold i l = elim (ℕ_discrete i 0) [
  | yes e ↦ rw e three-Holds
  | no ne ↦ empty-Holds i (omega arith)
]

three-Turn : Turn three_tasks all_tasks 11
unfolding bt
three-Turn = record {
  holds = three-AllHold;
  some_task = omega arith;
  is_current = refl;
  going = refl;
  waiting = λ j a b. ground arith;
  off = refl;
}

new_task : IsFree three_tasks 20
new_task = record {
  free = refl;
  not_null = λ e. absurd (omega arith);
  not_idle = λ e. absurd (omega arith);
}

off : bt (three_tasks.queues 0).flags 0 ≡ false
unfolding bt
off = refl

scheduler_add_task-Added_example :
    Added three_tasks 20 0 a_task tasks (scheduler_add_task 20 a_task 0 three_tasks)
scheduler_add_task-Added_example =
    scheduler_add_task-Added three_tasks 20 0 a_task tasks three-Holds new_task (omega arith) off

leave_task-Left_example : Left three_tasks 11 0 0 tasks (leave_task 11 three_tasks)
leave_task-Left_example =
    leave_task-Left three_tasks 11 0 0 tasks three-Holds (omega arith) refl off

idle-Given_example : Given three_tasks all_tasks (u64_mod - 1) (scheduler_next_task 0 three_tasks)
idle-Given_example = idle-Given three_tasks 0 all_tasks three-AllHold (inl refl)

next_task-Switched_example : Switched three_tasks all_tasks 11 0 0
next_task-Switched_example =
    next_task-Switched three_tasks all_tasks 11 0 0 three-AllHold (omega arith) (omega arith) refl
      off

turns-Fair_example : (t : Scheduler) × (turns 2 11 three_tasks ≡ ok 13 t)
turns-Fair_example = turns-Fair 2 three_tasks all_tasks 11 three-Turn (omega arith)
