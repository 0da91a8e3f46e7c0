-- ===== src/Scheduler/Rotate.antt =====
-- The part of `scheduler_next_task` on the current task, as a whole.
use visual_os.Base.{
  ℕ, ◌-◌, ◌<◌, ◌≡◌, ◌≢◌, refl, false, arith, ap, ◌∙◌, update, inl, inr, Bool-cases,
}
use visual_os.Base.Run.{ok}
use visual_os.Atomic.{bt, bts, atomic_lock}
use visual_os.Atomic.Laws.{bts-bt_ne}
use visual_os.Scheduler.State.{Scheduler, set_queue}
use visual_os.Scheduler.{
  set_first, flag_locked, flag_finished, queue_flag_locked, dequeue_task, scheduler_free_task,
  queue_spinlock, queue_unlock, node_lock, claim_current, give_back, leave_task,
}
use visual_os.Scheduler.Queues.{IsTask, Holds, Leaves, Holds-Leaves}
use visual_os.Scheduler.Leave.{
  flags-Leaves, dequeue_task-Holds, dequeue_task-Leaves, num-dequeue_task, flags-dequeue_task,
  context-dequeue_task,
}

pub queue_spinlock-ok :
    (i : ℕ) (s : Scheduler)
    → bt (s.queues i).flags queue_flag_locked ≡ false
    → queue_spinlock i s
      ≡ ok tt (
          set_queue i
            (record (s.queues i) { flags = (bts (s.queues i).flags queue_flag_locked).0 })
            s)
unfolding queue_spinlock bts
queue_spinlock-ok i s off = rw (off, queue_spinlock) refl

pub claim-Leaves :
    (s : Scheduler) (current k : ℕ) (seq : ℕ → ℕ) → Leaves s (claim_current current s) k seq
unfolding claim_current node_lock
claim-Leaves s current k seq = elim (Bool-cases (bt (s.nodes current).context.flags flag_locked)) [
  | inl on ↦ rw on (record {
    queue_num = λ q. refl;
    live = λ j l. refl;
    num = refl;
    first = refl;
    next = λ j l. refl;
    previous = λ j l. refl;
  })
  | inr off ↦ rw off (flags-Leaves s current _ k seq)
]

-- What `claim_current` leaves.
pub record Claimed (s t : Scheduler) (current : ℕ) : Type 0 where
  pub queues : t.queues ≡ s.queues
  pub live : t.live ≡ s.live
  pub next : (p : ℕ) → (t.nodes p).next ≡ (s.nodes p).next
  pub queue_num : (p : ℕ) → (t.nodes p).queue_num ≡ (s.nodes p).queue_num
  pub others : (p : ℕ) → p ≢ current → t.nodes p ≡ s.nodes p
  pub finished :
      bt (t.nodes current).context.flags flag_finished
      ≡ bt (s.nodes current).context.flags flag_finished

pub claim-Claimed : (s : Scheduler) (current : ℕ) → Claimed s (claim_current current s) current
unfolding claim_current node_lock atomic_lock
claim-Claimed s current = elim (Bool-cases (bt (s.nodes current).context.flags flag_locked)) [
  | inl on ↦ rw on (record {
    queues = refl;
    live = refl;
    next = λ p. refl;
    queue_num = λ p. refl;
    others = λ p ne. refl;
    finished = refl;
  })
  | inr off ↦ rw off (record {
    queues = refl;
    live = refl;
    next = λ p. ground arith;
    queue_num = λ p. ground arith;
    others = λ p ne. ground arith;
    finished = ground (arith, bts-bt_ne flag_locked flag_finished (s.nodes current).context.flags);
  })
]

pub leave_task-run :
    (current i : ℕ) (s t u : Scheduler)
    → claim_current current s ≡ t
    → (t.nodes current).queue_num ≡ i
    → queue_spinlock i t ≡ ok tt u
    → leave_task current s
      ≡ ok i (queue_unlock i (give_back current (set_first i (u.nodes current).next u)))
unfolding leave_task
leave_task-run current i s t u claimed number locked = rw (claimed, number, locked, leave_task) refl

-- The node `node`, the last of queue `i`, is freed.
module _ (s : Scheduler) (i node : ℕ) (seq : ℕ → ℕ) (h : Holds s i seq)
    (some_task : 0 < (s.queues i).num) (last : node ≡ seq ((s.queues i).num - 1)) where
  free-state :
      scheduler_free_task node s
      ≡ record (dequeue_task node s) { live = update (dequeue_task node s).live node false }
  unfolding scheduler_free_task
  free-state =
      let task : IsTask s i (seq ((s.queues i).num - 1)) =
        h.tasks ((s.queues i).num - 1) (omega arith) in
      ground (arith, task.not_null, task.not_idle)

  pub free-Holds : Holds (scheduler_free_task node s) i seq
  free-Holds =
      let count = num-dequeue_task s i node seq h some_task last in
      rw free-state (
        Holds-Leaves (dequeue_task node s) _ i seq
          (dequeue_task-Holds s i node seq h some_task last)
          (record {
            queue_num = λ p. refl;
            live = λ j l. ground (arith, h.ring.distinct j ((s.queues i).num - 1), count);
            num = refl;
            first = refl;
            next = λ j l. refl;
            previous = λ j l. refl;
          }))

  pub free-others :
      (k : ℕ) (other : ℕ → ℕ) → k ≢ i → Holds s k other → Holds (scheduler_free_task node s) k other
  free-others k other ne hk =
      let hk' : Holds (dequeue_task node s) k other =
        Holds-Leaves s _ k other hk
          (dequeue_task-Leaves s i node seq h some_task last k other ne hk) in
      let task : IsTask s i (seq ((s.queues i).num - 1)) =
        h.tasks ((s.queues i).num - 1) (omega arith) in
      let num_same : ((dequeue_task node s).queues k).num ≡ (s.queues k).num =
        (dequeue_task-Leaves s i node seq h some_task last k other ne hk).num in
      rw free-state (
        Holds-Leaves (dequeue_task node s) _ k other hk' (record {
          queue_num = λ p. refl;
          live = λ j l.
              let inside : j < (s.queues k).num = omega (arith, num_same) in
              let apart : other j ≢ node = λ e. omega (
                arith,
                (hk.tasks j inside).queue_num,
                task.queue_num,
                ap (λ p. (s.nodes p).queue_num) (e ∙ last),
              ) in
              ground arith;
          num = refl;
          first = refl;
          next = λ j l. refl;
          previous = λ j l. refl;
        }))

  pub context-free : (p : ℕ) → ((scheduler_free_task node s).nodes p).context ≡ (s.nodes p).context
  context-free p = rw free-state (context-dequeue_task s i node seq h some_task last p)

  pub free-queue :
      (((scheduler_free_task node s).queues i).num ≡ (s.queues i).num - 1)
      × (((scheduler_free_task node s).queues i).flags ≡ (s.queues i).flags)
      × ((scheduler_free_task node s).live node ≡ false)
  free-queue = rw free-state (
    num-dequeue_task s i node seq h some_task last,
    flags-dequeue_task s i node seq h some_task last,
    ground arith,
  )
