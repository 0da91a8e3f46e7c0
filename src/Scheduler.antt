-- ===== src/Scheduler.antt =====
-- src/kernel/scheduler/scheduler.c: queues of tasks, as rings of nodes in a heap. A command returns
-- the new state, or `spins` where it would wait for ever for a queue's lock bit.
pub mod State
pub mod Links
pub mod Ring
pub mod Queues
pub mod Leave
pub mod Rotate
pub mod Left
pub mod Scan
pub mod Next
pub mod Turns
pub mod Add
mod Tests
use visual_os.Base.{
  ℕ, zero, suc, ◌+◌, ◌-◌, ◌%◌, ◌^◌, Bool, true, false, not, Option, none, some, bit_and, bit_or,
  ltb, leb, ◌==◌, ◌||◌, if◌then◌else◌, u64_mod, add64, sub64, update,
}
use visual_os.Base.Run.{Run, ok, spins, out_of_fuel, Cmd, pure, gets, modify, ◌>>=◌, ◌>>◌}
use visual_os.Atomic.{bt, atomic_lock, atomic_unlock, atomic_spinlock, atomic_accumulate}
use visual_os.Scheduler.State.{
  SchedulerNode, SchedulerQueue, TaskInitialState, Context, ContextFrame, Thread, Scheduler, null,
  idle_node, set_node, set_next, set_previous, set_flags, set_queue,
}

abbrev pub queues_num : ℕ
queues_num = 3

-- `SCHEDULER_CONTEXT_FLAG_LOCKED`, `SCHEDULER_CONTEXT_FLAG_FINISHED` and
-- `SCHEDULER_QUEUE_FLAG_LOCKED`
abbrev pub flag_locked : ℕ
flag_locked = 0

abbrev pub flag_finished : ℕ
flag_finished = 1

abbrev pub queue_flag_locked : ℕ
queue_flag_locked = 0

abbrev pub pass_flags : ℕ
pass_flags = bit_or (2 ^ flag_locked) (2 ^ flag_finished)

abbrev pub rflags_initial : ℕ
rflags_initial = 0x0202

abbrev pub gdt_offset_kernel_code : ℕ
gdt_offset_kernel_code = 0x08

abbrev pub gdt_offset_kernel_data : ℕ
gdt_offset_kernel_data = 0x10

abbrev pub gdt_offset_user_data : ℕ
gdt_offset_user_data = 0x20

abbrev pub gdt_offset_user_code : ℕ
gdt_offset_user_code = 0x28

-- The new state, and what the function returns.
unfoldable pub node_lock : ℕ → Scheduler → Scheduler × Bool
unfolding atomic_lock
node_lock node s =
    let (word, done) = atomic_lock (s.nodes node).context.flags flag_locked in
    (set_flags node word s, done)

unfoldable pub node_unlock : ℕ → Scheduler → Scheduler
unfolding atomic_unlock
node_unlock node s = set_flags node (atomic_unlock (s.nodes node).context.flags flag_locked).0 s

unfoldable pub queue_spinlock : ℕ → Cmd Scheduler (Unit {0})
unfolding atomic_spinlock
queue_spinlock i s = elim (atomic_spinlock (s.queues i).flags queue_flag_locked) [
  | none ↦ spins
  | some word ↦ ok tt (set_queue i (record (s.queues i) { flags = word }) s)
]

unfoldable pub queue_unlock : ℕ → Scheduler → Scheduler
unfolding atomic_unlock
queue_unlock i s =
    set_queue i
      (record (s.queues i) { flags = (atomic_unlock (s.queues i).flags queue_flag_locked).0 }) s

-- `queue->first = p` and `queue->num = n`
abbrev pub set_first : ℕ → ℕ → Scheduler → Scheduler
set_first i p s = set_queue i (record (s.queues i) { first = p }) s

abbrev pub set_num : ℕ → ℕ → Scheduler → Scheduler
set_num i n s = set_queue i (record (s.queues i) { num = n }) s

-- The node's place in the ring of the queue `i`, before `first`.
unfoldable pub link_first : (i node : ℕ) → Scheduler → Scheduler
link_first i node s = set_first i node (set_next node node (set_previous node node s))

unfoldable pub link_last : (first node : ℕ) → Scheduler → Scheduler
link_last first node s =
    let s1 = set_previous node (s.nodes first).previous s in
    let s2 = set_next node first s1 in
    let s3 = set_next (s2.nodes first).previous node s2 in set_previous first node s3

unfoldable pub enqueue_task : ℕ → Scheduler → Scheduler
unfolding link_first link_last
enqueue_task node s =
    let i = (s.nodes node).queue_num in
    let s' =
      if (s.queues i).num == 0 then link_first i node s else link_last (s.queues i).first node s in
    set_num i (add64 (s'.queues i).num 1) s'

unfoldable pub unlink : ℕ → Scheduler → Scheduler
unlink node s =
    let s1 = set_previous (s.nodes node).next (s.nodes node).previous s in
    set_next (s1.nodes node).previous (s1.nodes node).next s1

unfoldable pub dequeue_task : ℕ → Scheduler → Scheduler
unfolding unlink
dequeue_task node s =
    let i = (s.nodes node).queue_num in
    let s' = if leb (s.queues i).num 1 then set_first i null s else unlink node s in
    set_num i (sub64 (s'.queues i).num 1) s'

-- The structure that `scheduler_add_task` writes; what it does not name is 0.
abbrev pub new_node : (tid queue_num : ℕ) → TaskInitialState → SchedulerNode
new_node tid queue_num initial = record {
  context = record {
    context_frame = record {
      general = initial.general;
      rip = initial.entry;
      cs =
          bit_or (if initial.rpl == 3 then gdt_offset_user_code else gdt_offset_kernel_code)
            initial.rpl;
      rflags = rflags_initial;
      rsp = initial.stack;
      ss =
          bit_or (if initial.rpl == 3 then gdt_offset_user_data else gdt_offset_kernel_data)
            initial.rpl;
      self = 0;
    };
    flags = 0;
    error_code = 0;
    task = record { tid = tid; process = null; next = null };
  };
  queue_num = queue_num;
  previous = null;
  next = null;
}

-- `node` is what `malloc` returns.
unfoldable pub scheduler_add_task :
    (node : ℕ) → TaskInitialState → (queue_num : ℕ) → Cmd Scheduler ℕ
scheduler_add_task node initial queue_num = do
  modify (λ s. record s { live = update s.live node true })
  tid ← gets (λ s. (atomic_accumulate s.tid_accumulator 1).1)
  modify (λ s. record s { tid_accumulator = (atomic_accumulate s.tid_accumulator 1).0 })
  modify (set_node node (new_node tid queue_num initial))
  queue_spinlock queue_num
  modify (enqueue_task node)
  modify (queue_unlock queue_num)
  pure node

unfoldable pub scheduler_free_task : ℕ → Scheduler → Scheduler
scheduler_free_task node s =
    let s' = dequeue_task node s in
    if node == 0 || node == idle_node then s else record s' { live = update s'.live node false }

-- A current task that is not locked is locked, after a warning.
unfoldable pub claim_current : ℕ → Scheduler → Scheduler
claim_current current s =
    if bt (s.nodes current).context.flags flag_locked then s else (node_lock current s).0

-- A current task is freed if it is finished, and unlocked otherwise.
unfoldable pub give_back : ℕ → Scheduler → Scheduler
give_back current s =
    if bt (s.nodes current).context.flags flag_finished
    then scheduler_free_task current s
    else node_unlock current s

-- The part of `scheduler_next_task` on a current task: it returns the number of its queue.
unfoldable pub leave_task : ℕ → Cmd Scheduler ℕ
leave_task current = do
  modify (claim_current current)
  i ← gets (λ s. (s.nodes current).queue_num)
  queue_spinlock i
  modify (λ s. set_first i (s.nodes current).next s)
  modify (give_back current)
  modify (queue_unlock i)
  pure i

unfoldable pub leave_current : ℕ → Cmd Scheduler ℕ
leave_current current s = elim (current == 0 || current == idle_node) [
  | true ↦ ok (u64_mod - 1) s
  | false ↦ leave_task current s
]

-- `timer_set_ticks(s_ticks_table[j])` on a register of 32 bits, if `current_queue_num != j`.
unfoldable pub set_ticks : (current_queue_num j : ℕ) → Scheduler → Scheduler
set_ticks current_queue_num j s =
    if current_queue_num == j then s else record s { timer_count = s.ticks_table j % 2 ^ 32 }

-- The loop over a queue, from its `j`-th node on, with the rounds that are left: the node that was
-- locked, if there is one.
unfoldable pub scan_queue : (rounds j current_queue_num node : ℕ) → Scheduler → Scheduler × Option ℕ
scan_queue zero j current_queue_num node s = (s, none)
scan_queue (suc rounds) j current_queue_num node s =
    elim (bit_and (s.nodes node).context.flags pass_flags == 0) [
      | true ↦
          let (s', done) = node_lock node s in
          elim done [
            | true ↦ (set_ticks current_queue_num j s', some node)
            | false ↦ scan_queue rounds (j + 1) current_queue_num (s'.nodes node).next s'
          ]
      | false ↦ scan_queue rounds (j + 1) current_queue_num (s.nodes node).next s
    ]

-- The loop over the queues from `i` on. The test of `queue->flags` is with
-- `SCHEDULER_CONTEXT_FLAG_LOCKED`, which is 0, as the mask.
unfoldable pub scan_queues : (rounds i current_queue_num : ℕ) → Scheduler → Scheduler × Option ℕ
scan_queues zero i current_queue_num s = (s, none)
scan_queues (suc rounds) i current_queue_num s =
    elim ((s.queues i).first == null || not (bit_and (s.queues i).flags flag_locked == 0)) [
      | true ↦ scan_queues rounds (i + 1) current_queue_num s
      | false ↦
          let (s', found) = scan_queue (s.queues i).num 0 current_queue_num (s.queues i).first s in
          elim found [
            | some node ↦ (s', some node)
            | none ↦ scan_queues rounds (i + 1) current_queue_num s'
          ]
    ]

unfoldable pub scheduler_next_task : ℕ → Cmd Scheduler ℕ
scheduler_next_task current = do
  current_queue_num ← leave_current current
  found ← (λ s. let (s', node) = scan_queues queues_num 0 current_queue_num s in ok node s')
  pure (elim found [ none ↦ idle_node | some node ↦ node ])

unfoldable pub scheduler_init : Scheduler → Scheduler
scheduler_init s = record s {
  queues = λ i. if ltb i queues_num then record { first = 0; num = 0; flags = 0 } else s.queues i;
}
