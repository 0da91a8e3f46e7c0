-- ===== src/Scheduler/Add.antt =====
-- `scheduler_add_task`.
use visual_os.Base.{
  ◌==◌, if◌then◌else◌, bit_or, ℕ, ◌+◌, ◌^◌, ◌<◌, ◌≡◌, ◌≢◌, refl, true, false, arith, ap, ◌∙◌,
  update,
}
use visual_os.Base.Run.{Run, ok}
use visual_os.Atomic.{bt, bts, btr, atomic_accumulate, atomic_unlock}
use visual_os.Atomic.Laws.{btr-bts}
use visual_os.Scheduler.State.{Context, TaskInitialState, Scheduler, null, idle_node, set_queue}
use visual_os.Scheduler.{
  queue_flag_locked, new_node, enqueue_task, queue_unlock, scheduler_add_task,
}
use visual_os.Scheduler.Ring.{append_at, Ring-frame}
use visual_os.Scheduler.Queues.{
  IsTask, Holds, Leaves, Holds-Leaves, IsFresh, enqueue_task-Holds, enqueue_task-Leaves,
  flags-enqueue_task, context-enqueue_task, num-enqueue_task,
}
use visual_os.Scheduler.Leave.{queue_flags-Leaves}
use visual_os.Scheduler.Rotate.{queue_spinlock-ok}

-- The memory `node` is free, neither `NULL` nor the idle task's.
pub record IsFree (s : Scheduler) (node : ℕ) : Type 0 where
  pub free : s.live node ≡ false
  pub not_null : node ≢ null
  pub not_idle : node ≢ idle_node

-- The context of a new task, as the processor is to take it up: from its entry and on its stack, in the
-- segments of its privilege level, with interrupts on; free, of no process and with a number.
pub record StartsWith (tid : ℕ) (initial : TaskInitialState) (context : Context) : Type 0 where
  pub general : context.context_frame.general ≡ initial.general
  pub rip : context.context_frame.rip ≡ initial.entry
  pub rsp : context.context_frame.rsp ≡ initial.stack
  pub rflags : context.context_frame.rflags ≡ 0x202
  pub cs : context.context_frame.cs ≡ bit_or (if initial.rpl == 3 then 0x28 else 8) initial.rpl
  pub ss : context.context_frame.ss ≡ bit_or (if initial.rpl == 3 then 0x20 else 16) initial.rpl
  pub flags : context.flags ≡ 0
  pub tid_kept : context.task.tid ≡ tid
  pub process : context.task.process ≡ 0
  pub next : context.task.next ≡ 0

new_node-StartsWith :
    (tid i : ℕ) (initial : TaskInitialState)
    → StartsWith tid initial (new_node tid i initial).context
new_node-StartsWith tid i initial = record {
  general = refl;
  rip = refl;
  rsp = refl;
  rflags = refl;
  cs = refl;
  ss = refl;
  flags = refl;
  tid_kept = refl;
  process = refl;
  next = refl;
}

-- What adding a task leaves.
pub record Added (s : Scheduler) (node i : ℕ) (initial : TaskInitialState) (seq : ℕ → ℕ)
    (r : Run Scheduler ℕ) : Type 0 where
  pub after : Scheduler
  pub run : r ≡ ok node after
  pub holds : Holds after i (append_at (s.queues i).num node seq)
  pub num : (after.queues i).num ≡ (s.queues i).num + 1
  pub lock : (after.queues i).flags ≡ (s.queues i).flags
  pub context :
      (after.nodes node).context
      ≡ (new_node (atomic_accumulate s.tid_accumulator 1).1 i initial).context
  pub starts : StartsWith s.tid_accumulator initial (after.nodes node).context
  pub contexts : (p : ℕ) → p ≢ node → (after.nodes p).context ≡ (s.nodes p).context
  pub others : (k : ℕ) (other : ℕ → ℕ) → k ≢ i → Holds s k other → Holds after k other

module _ (s : Scheduler) (node i : ℕ) (initial : TaskInitialState) (seq : ℕ → ℕ) (h : Holds s i seq)
    (f : IsFree s node) (room : (s.queues i).num + 1 < 2 ^ 63)
    (off : bt (s.queues i).flags queue_flag_locked ≡ false) where
  -- The state with the new node, before it is in the queue.
  abbrev s1 : Scheduler
  s1 = record s {
    live = update s.live node true;
    tid_accumulator = (atomic_accumulate s.tid_accumulator 1).0;
    nodes = update s.nodes node (new_node (atomic_accumulate s.tid_accumulator 1).1 i initial);
  }

  out : (k : ℕ) (other : ℕ → ℕ) → Holds s k other → (j : ℕ) → j < (s.queues k).num → other j ≢ node
  out k other hk j l e = cc ((hk.tasks j l).live, f.free, e)

  s1-Holds : (k : ℕ) (other : ℕ → ℕ) → Holds s k other → Holds s1 k other
  s1-Holds k other hk = record {
    few = hk.few;
    empty = hk.empty;
    first = hk.first;
    ring =
        Ring-frame s.nodes s1.nodes (s.queues k).num other hk.ring
          (λ j l. ground (arith, out k other hk j l)) (λ j l. ground (arith, out k other hk j l));
    tasks = λ j l.
        let task : IsTask s k (other j) = hk.tasks j l in
        record {
          queue_num = ground (arith, out k other hk j l, task.queue_num);
          live = ground (arith, task.live);
          not_null = task.not_null;
          not_idle = task.not_idle;
        };
  }

  abbrev s2 : Scheduler
  s2 = set_queue i (record (s.queues i) { flags = (bts (s.queues i).flags queue_flag_locked).0 }) s1

  s2-Holds : (k : ℕ) (other : ℕ → ℕ) → Holds s k other → Holds s2 k other
  s2-Holds k other hk =
      Holds-Leaves s1 s2 k other (s1-Holds k other hk) (queue_flags-Leaves s1 i _ k other)

  s2-num : (s2.queues i).num ≡ (s.queues i).num
  s2-num = ground arith

  s2-IsFresh : IsFresh s2 i node seq
  s2-IsFresh = record {
    task = record {
      queue_num = ground arith;
      live = ground arith;
      not_null = f.not_null;
      not_idle = f.not_idle;
    };
    out = λ j l. out i seq h j (omega (arith, s2-num));
    room = omega (arith, s2-num);
  }

  abbrev s3 : Scheduler
  s3 = enqueue_task node s2

  abbrev s4 : Scheduler
  s4 = queue_unlock i s3

  s4-run : scheduler_add_task node initial i s ≡ ok node s4
  unfolding scheduler_add_task
  s4-run = rw (queue_spinlock-ok i s1 off) refl

  unlock-Leaves : (k : ℕ) (other : ℕ → ℕ) → Leaves s3 s4 k other
  unfolding queue_unlock
  unlock-Leaves k other = queue_flags-Leaves s3 i _ k other

  s2-Holds_seq : Holds s2 i seq
  s2-Holds_seq = s2-Holds i seq h

  s4-flags : (s4.queues i).flags ≡ (btr (s3.queues i).flags queue_flag_locked).0
  unfolding queue_unlock atomic_unlock
  s4-flags = ground arith

  s4-nodes : s4.nodes ≡ s3.nodes
  unfolding queue_unlock
  s4-nodes = refl

  s2-flags : (s2.queues i).flags ≡ (bts (s.queues i).flags queue_flag_locked).0
  s2-flags = ground arith

  started :
      (s4.nodes node).context
      ≡ (new_node (atomic_accumulate s.tid_accumulator 1).1 i initial).context
  started =
      rw s4-nodes (context-enqueue_task s2 i node seq s2-Holds_seq s2-IsFresh node ∙ ground arith)

  -- A task that is added to a queue whose lock bit is off stands behind the tasks of the queue, with
  -- the next number and the context that its initial state says: its entry, stack, registers and the
  -- segments of its privilege level. The lock bit is off again, and the other queues hold what
  -- they held.
  pub scheduler_add_task-Added : Added s node i initial seq (scheduler_add_task node initial i s)
  unfolding atomic_accumulate
  scheduler_add_task-Added = record {
    after = s4;
    run = s4-run;
    holds =
        Holds-Leaves s3 s4 i _
          (rw s2-num at (enqueue_task-Holds s2 i node seq s2-Holds_seq s2-IsFresh))
          (unlock-Leaves i _);
    num =
        (unlock-Leaves i seq).num
        ∙ num-enqueue_task s2 i node seq s2-Holds_seq s2-IsFresh
        ∙ ap (λ m. m + 1) s2-num;
    lock =
        s4-flags
        ∙ ap (λ w. (btr w queue_flag_locked).0)
            (flags-enqueue_task s2 i node seq s2-Holds_seq s2-IsFresh ∙ s2-flags)
        ∙ btr-bts (s.queues i).flags queue_flag_locked off;
    context = started;
    starts = rw started (new_node-StartsWith s.tid_accumulator i initial);
    contexts = λ p ne.
        rw s4-nodes (context-enqueue_task s2 i node seq s2-Holds_seq s2-IsFresh p ∙ ground arith);
    others = λ k other ne hk.
        let h2 : Holds s2 k other = s2-Holds k other hk in
        Holds-Leaves s3 s4 k other
          (Holds-Leaves s2 s3 k other h2
            (enqueue_task-Leaves s2 i node seq s2-Holds_seq s2-IsFresh k other ne h2))
          (unlock-Leaves k other);
  }
