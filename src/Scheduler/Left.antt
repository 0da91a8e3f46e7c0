-- ===== src/Scheduler/Left.antt =====
-- `scheduler_next_task` on its current task: what the step leaves.
use visual_os.Base.{
  ℕ, ◌-◌, ◌<◌, ◌≡◌, ◌≢◌, refl, Bool, true, false, if◌then◌else◌, arith, ap, ap₂, sym, ◌∙◌, inl, inr,
  Bool-cases,
}
use visual_os.Base.Run.{Run, ok}
use visual_os.Atomic.{bt, bts, btr, atomic_unlock}
use visual_os.Atomic.Laws.{btr-bt_ne, btr-bt_self, btr-bts}
use visual_os.Scheduler.State.{SchedulerNode, SchedulerQueue, Scheduler, set_queue}
use visual_os.Scheduler.{
  set_first, flag_locked, flag_finished, queue_flag_locked, queue_unlock, node_unlock,
  claim_current, give_back, leave_task,
}
use visual_os.Scheduler.Ring.{rotate, following, place}
use visual_os.Scheduler.Queues.{Holds, Leaves, Holds-Leaves}
use visual_os.Scheduler.Leave.{flags-Leaves, queue_flags-Leaves, set_first-Leaves, set_first-Holds}
use visual_os.Scheduler.Rotate.{
  queue_spinlock-ok, claim-Leaves, Claimed, claim-Claimed, leave_task-run, free-Holds, free-others,
  free-queue, context-free,
}

abbrev pub finished : Scheduler → ℕ → Bool
finished s p = bt (s.nodes p).context.flags flag_finished

-- The current task was task `c` of queue `i`. The queue now begins with the task after it and ends with
-- the current one; or without it, if it is finished, and then it is freed.
pub record Left (s : Scheduler) (current i c : ℕ) (seq : ℕ → ℕ) (r : Run Scheduler ℕ) : Type 0 where
  pub after : Scheduler
  pub run : r ≡ ok i after
  pub holds : Holds after i (rotate (s.queues i).num (following (s.queues i).num c) seq)
  pub num :
      (after.queues i).num ≡ (if finished s current then (s.queues i).num - 1 else (s.queues i).num)
  pub freed : finished s current ≡ true → after.live current ≡ false
  pub unlocked :
      finished s current ≡ false → bt (after.nodes current).context.flags flag_locked ≡ false
  pub going : finished s current ≡ false → finished after current ≡ false
  pub lock : (after.queues i).flags ≡ (s.queues i).flags
  pub contexts : (p : ℕ) → p ≢ current → (after.nodes p).context ≡ (s.nodes p).context
  pub others : (k : ℕ) (other : ℕ → ℕ) → k ≢ i → Holds s k other → Holds after k other

-- What giving the last task of a queue back leaves.
record GivenBack (s t : Scheduler) (node i : ℕ) (seq : ℕ → ℕ) : Type 0 where
  holds : Holds t i seq
  num : (t.queues i).num ≡ (if finished s node then (s.queues i).num - 1 else (s.queues i).num)
  freed : finished s node ≡ true → t.live node ≡ false
  unlocked : finished s node ≡ false → bt (t.nodes node).context.flags flag_locked ≡ false
  going : finished s node ≡ false → finished t node ≡ false
  lock : (t.queues i).flags ≡ (s.queues i).flags
  contexts : (p : ℕ) → p ≢ node → (t.nodes p).context ≡ (s.nodes p).context
  others : (k : ℕ) (other : ℕ → ℕ) → k ≢ i → Holds s k other → Holds t k other

give_back-GivenBack :
    (s : Scheduler) (node i : ℕ) (seq : ℕ → ℕ)
    → Holds s i seq
    → 0 < (s.queues i).num
    → node ≡ seq ((s.queues i).num - 1)
    → GivenBack s (give_back node s) node i seq
unfolding give_back
give_back-GivenBack s node i seq h more last = elim (Bool-cases (finished s node)) [
  | inl done ↦
      let (num, lock, freed) = free-queue s i node seq h more last in
      rw done (record {
        holds = free-Holds s i node seq h more last;
        num = rw done num;
        freed = λ d. freed;
        unlocked = λ d. cc (d, done);
        going = λ d. cc (d, done);
        lock = lock;
        contexts = λ p ne. context-free s i node seq h more last p;
        others = free-others s i node seq h more last;
      })
  | inr going ↦ rw going (record {
    holds = Holds-Leaves s _ i seq h (unlock-Leaves i seq);
    num = rw going (ap (λ (q : SchedulerQueue). q.num) unlock-queues);
    freed = λ d. cc (d, going);
    unlocked = λ d. unlock-off;
    going = λ d. unlock-going ∙ going;
    lock = ap (λ (q : SchedulerQueue). q.flags) unlock-queues;
    contexts = λ p ne. unfold node_unlock in ground arith;
    others = λ k other ne hk. Holds-Leaves s _ k other hk (unlock-Leaves k other);
  })
]
  where
    unlock-Leaves : (k : ℕ) (other : ℕ → ℕ) → Leaves s (node_unlock node s) k other
    unlock-Leaves k other = unfold node_unlock in flags-Leaves s node _ k other

    unlock-queues : (node_unlock node s).queues i ≡ s.queues i
    unlock-queues = unfold node_unlock in refl

    unlock-going : finished (node_unlock node s) node ≡ finished s node
    unlock-going =
        unfold node_unlock atomic_unlock in
        ground
          (arith, btr-bt_ne flag_locked flag_finished (s.nodes node).context.flags (omega arith))

    unlock-off : bt ((node_unlock node s).nodes node).context.flags flag_locked ≡ false
    unlock-off =
        unfold node_unlock atomic_unlock in
        ground (arith, btr-bt_self (s.nodes node).context.flags flag_locked)

module _ (s : Scheduler) (current i c : ℕ) (seq : ℕ → ℕ) (h : Holds s i seq)
    (inside : c < (s.queues i).num) (is_current : current ≡ seq c)
    (off : bt (s.queues i).flags queue_flag_locked ≡ false) where
  abbrev s1 : Scheduler
  s1 = claim_current current s

  claimed : Claimed s s1 current
  claimed = claim-Claimed s current

  abbrev s2 : Scheduler
  s2 =
      set_queue i (record (s1.queues i) { flags = (bts (s1.queues i).flags queue_flag_locked).0 })
        s1

  same_queue : s1.queues i ≡ s.queues i
  same_queue = ap (λ (q : ℕ → SchedulerQueue). q i) claimed.queues

  s2-Holds : Holds s2 i seq
  s2-Holds =
      Holds-Leaves s1 s2 i seq (Holds-Leaves s s1 i seq h (claim-Leaves s current i seq))
        (queue_flags-Leaves s1 i _ i seq)

  s2-num : (s2.queues i).num ≡ (s.queues i).num
  s2-num = ground (arith, same_queue)

  next_task : (s2.nodes current).next ≡ seq (following (s.queues i).num c)
  next_task = claimed.next current ∙ rw is_current (h.ring.next c inside)

  abbrev s3 : Scheduler
  s3 = set_first i (seq (following (s.queues i).num c)) s2

  abbrev seq' : ℕ → ℕ
  seq' = rotate (s.queues i).num (following (s.queues i).num c) seq

  s3-num : (s3.queues i).num ≡ (s.queues i).num
  s3-num = ground (arith, same_queue)

  s3-Holds : Holds s3 i seq'
  s3-Holds =
      rw (sym s2-num)
        (set_first-Holds s2 i (following (s2.queues i).num c) seq s2-Holds (ground (arith, s2-num)))

  current_last : current ≡ seq' ((s3.queues i).num - 1)
  current_last =
      let at_c : place (s.queues i).num (following (s.queues i).num c) ((s.queues i).num - 1) ≡ c =
        ground arith in
      rw (s3-num, at_c) is_current

  given : GivenBack s3 (give_back current s3) current i seq'
  given = give_back-GivenBack s3 current i seq' s3-Holds (omega (arith, s3-num)) current_last

  abbrev s5 : Scheduler
  s5 = queue_unlock i (give_back current s3)

  s5-run : leave_task current s ≡ ok i s5
  s5-run =
      let off1 : bt (s1.queues i).flags queue_flag_locked ≡ false = rw same_queue off in
      let its : (s1.nodes current).queue_num ≡ i =
        claimed.queue_num current ∙ rw is_current (h.tasks c inside).queue_num in
      let run : leave_task current s
          ≡ ok i (queue_unlock i (give_back current (set_first i (s2.nodes current).next s2))) =
        leave_task-run current i s s1 s2 refl its (queue_spinlock-ok i s1 off1) in
      rw next_task at run

  unlock-Leaves : (t : Scheduler) (k : ℕ) (other : ℕ → ℕ) → Leaves t (queue_unlock i t) k other
  unfolding queue_unlock
  unlock-Leaves t k other = queue_flags-Leaves t i _ k other

  unlock-num : (t : Scheduler) → ((queue_unlock i t).queues i).num ≡ (t.queues i).num
  unfolding queue_unlock
  unlock-num t = ground arith

  unlock-flags :
      (t : Scheduler)
      → ((queue_unlock i t).queues i).flags ≡ (btr (t.queues i).flags queue_flag_locked).0
  unfolding queue_unlock atomic_unlock
  unlock-flags t = ground arith

  unlock-nodes :
      (t : Scheduler) → ((queue_unlock i t).nodes ≡ t.nodes) × ((queue_unlock i t).live ≡ t.live)
  unfolding queue_unlock
  unlock-nodes t = (refl, refl)

  finished_same : finished s3 current ≡ finished s current
  finished_same = claimed.finished

  s3-flags : (s3.queues i).flags ≡ (bts (s.queues i).flags queue_flag_locked).0
  s3-flags = ground (arith, same_queue)

  lock_back : (s5.queues i).flags ≡ (s.queues i).flags
  lock_back =
      unlock-flags (give_back current s3)
      ∙ ap (λ w. (btr w queue_flag_locked).0) (given.lock ∙ s3-flags)
      ∙ btr-bts (s.queues i).flags queue_flag_locked off

  -- For a current task of a queue whose lock bit is off, the step returns. The queue is rotated to the
  -- task after it, so that the current task is the last; a finished task is taken out and freed, and
  -- any other is unlocked. The lock bit is off again, the context of no other task changes, and the
  -- other queues hold what they held.
  pub leave_task-Left : Left s current i c seq (leave_task current s)
  leave_task-Left = record {
    after = s5;
    run = s5-run;
    holds =
        Holds-Leaves (give_back current s3) s5 i seq' given.holds
          (unlock-Leaves (give_back current s3) i seq');
    num =
        unlock-num (give_back current s3)
        ∙ given.num
        ∙ ap₂ (λ (d : Bool) (m : ℕ). if d then m - 1 else m) finished_same s3-num;
    freed = λ d. rw (unlock-nodes (give_back current s3)).1 (given.freed (finished_same ∙ d));
    unlocked = λ d. rw (unlock-nodes (give_back current s3)).0 (given.unlocked (finished_same ∙ d));
    going = λ d. rw (unlock-nodes (give_back current s3)).0 (given.going (finished_same ∙ d));
    lock = lock_back;
    contexts = λ p ne.
        let kept : (s3.nodes p).context ≡ (s.nodes p).context =
          ap (λ (q : SchedulerNode). q.context) (claimed.others p ne) in
        rw (unlock-nodes (give_back current s3)).0 (given.contexts p ne ∙ kept);
    others = λ k other ne hk.
        let h1 : Holds s1 k other = Holds-Leaves s s1 k other hk (claim-Leaves s current k other) in
        let h2 : Holds s2 k other =
          Holds-Leaves s1 s2 k other h1 (queue_flags-Leaves s1 i _ k other) in
        let h3 : Holds s3 k other =
          Holds-Leaves s2 s3 k other h2 (set_first-Leaves s2 i _ k other ne) in
        Holds-Leaves (give_back current s3) s5 k other (given.others k other ne h3)
          (unlock-Leaves (give_back current s3) k other);
  }
