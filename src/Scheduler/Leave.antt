-- ===== src/Scheduler/Leave.antt =====
-- The steps of scheduler.c on a current task: its queue is rotated, and it is unlocked or freed.
use native.Mathlib.Decide.{ℕ_discrete}
use visual_os.Base.{
  ℕ, ◌+◌, ◌-◌, ◌<◌, ◌≡◌, ◌≢◌, refl, Bool, false, leb, ◌==◌, if◌then◌else◌, arith, ap, sym, ◌∙◌,
  sub64,
}
use visual_os.Scheduler.State.{Scheduler, null, set_flags, set_queue}
use visual_os.Scheduler.{set_num, set_first, unlink, dequeue_task}
use visual_os.Scheduler.Links.{SameBut, unlink-next, unlink-previous, unlink-SameBut}
use visual_os.Scheduler.Ring.{rotate, place, Ring-rotate, Ring-drop_last}
use visual_os.Scheduler.Queues.{IsTask, Holds, Leaves}

-- Flags of nodes and of queues do not matter.
pub flags-Leaves : (s : Scheduler) (p f k : ℕ) (seq : ℕ → ℕ) → Leaves s (set_flags p f s) k seq
flags-Leaves s p f k seq = record {
  queue_num = λ q. ground arith;
  live = λ j l. refl;
  num = refl;
  first = refl;
  next = λ j l. ground arith;
  previous = λ j l. ground arith;
}

pub queue_flags-Leaves :
    (s : Scheduler) (i w k : ℕ) (seq : ℕ → ℕ)
    → Leaves s (set_queue i (record (s.queues i) { flags = w }) s) k seq
queue_flags-Leaves s i w k seq = record {
  queue_num = λ q. refl;
  live = λ j l. refl;
  num = ground arith;
  first = ground arith;
  next = λ j l. refl;
  previous = λ j l. refl;
}

pub set_first-Leaves :
    (s : Scheduler) (i p k : ℕ) (seq : ℕ → ℕ) → k ≢ i → Leaves s (set_first i p s) k seq
set_first-Leaves s i p k seq ne = record {
  queue_num = λ q. refl;
  live = λ j l. refl;
  num = ground arith;
  first = ground arith;
  next = λ j l. refl;
  previous = λ j l. refl;
}

-- A queue whose first node is set to its `c`-th is rotated.
pub set_first-Holds :
    (s : Scheduler) (i c : ℕ) (seq : ℕ → ℕ)
    → Holds s i seq
    → c < (s.queues i).num
    → Holds (set_first i (seq c) s) i (rotate (s.queues i).num c seq)
set_first-Holds s i c seq h inside =
    let same : ((set_first i (seq c) s).queues i).num ≡ (s.queues i).num = ground arith in
    record {
      few = omega (arith, h.few, same);
      empty = λ e. absurd (omega (arith, same));
      first = λ more. ground arith;
      ring = rw same (Ring-rotate s.nodes (s.queues i).num c seq inside h.ring);
      tasks = λ j l.
          let task : IsTask s i (seq (place (s.queues i).num c j)) =
            h.tasks (place (s.queues i).num c j) (ground (arith, same)) in
          record {
            queue_num = task.queue_num;
            live = task.live;
            not_null = task.not_null;
            not_idle = task.not_idle;
          };
    }

module _ (s : Scheduler) (i node : ℕ) (seq : ℕ → ℕ) (h : Holds s i seq)
    (some_task : 0 < (s.queues i).num) (last : node ≡ seq ((s.queues i).num - 1)) where
  its_queue : (s.nodes node).queue_num ≡ i
  its_queue = rw last (h.tasks ((s.queues i).num - 1) (omega arith)).queue_num

  dequeue-only : (s.queues i).num ≡ 1 → dequeue_task node s ≡ set_num i 0 (set_first i null s)
  unfolding dequeue_task
  dequeue-only e = rw (its_queue, e) (ground arith)

  dequeue-more :
      1 < (s.queues i).num → dequeue_task node s ≡ set_num i ((s.queues i).num - 1) (unlink node s)
  unfolding dequeue_task unlink
  dequeue-more more =
      let many : leb (s.queues i).num 1 ≡ false = ground arith in
      let fewer : sub64 (s.queues i).num 1 ≡ (s.queues i).num - 1 = omega (arith, h.few) in
      rw (its_queue, many, fewer) refl

  node-next : 1 < (s.queues i).num → (s.nodes node).next ≡ seq 0
  node-next more =
      let back : (s.queues i).num - 1 + 1 ≡ (s.queues i).num = omega arith in
      rw last (ground (arith, h.ring.next ((s.queues i).num - 1)))

  node-previous : 1 < (s.queues i).num → (s.nodes node).previous ≡ seq ((s.queues i).num - 2)
  node-previous more =
      let back : (s.queues i).num - 2 + 1 ≡ (s.queues i).num - 1 = omega arith in
      rw last (ground (arith, h.ring.previous ((s.queues i).num - 2)))

  next_apart : 1 < (s.queues i).num → (s.nodes node).next ≢ node
  next_apart more e =
      let same : seq 0 ≡ seq ((s.queues i).num - 1) = sym (node-next more) ∙ e ∙ last in
      omega (arith, h.ring.distinct 0 ((s.queues i).num - 1) (omega arith) (omega arith) same)

  abbrev only_state : Scheduler
  only_state = set_num i 0 (set_first i null s)

  abbrev more_state : Scheduler
  more_state = set_num i ((s.queues i).num - 1) (unlink node s)

  more_state-queue :
      (k : ℕ)
      → more_state.queues k ≡ (
          if k == i
          then record {
            first = (s.queues i).first;
            num = (s.queues i).num - 1;
            flags = (s.queues i).flags;
          }
          else s.queues k)
  unfolding unlink
  more_state-queue k = ground arith

  only-Holds : (s.queues i).num ≡ 1 → Holds only_state i seq
  only-Holds e = record {
    few = ground arith;
    empty = λ z. ground arith;
    first = λ z. absurd (ground arith);
    ring = record {
      distinct = λ a b l m f. absurd (ground arith);
      next = λ a l. absurd (ground arith);
      previous = λ a l. absurd (ground arith);
    };
    tasks = λ a l. absurd (ground arith);
  }

  more-Holds : 1 < (s.queues i).num → Holds more_state i seq
  more-Holds more =
      let count : (more_state.queues i).num ≡ (s.queues i).num - 1 =
        ground (arith, more_state-queue i) in
      let same : SameBut s (unlink node s) = unlink-SameBut s node in
      record {
        few = omega (arith, h.few, count);
        empty = λ z. absurd (omega (arith, count));
        first = λ z. ground (arith, more_state-queue i, h.first);
        ring = rw count (
            Ring-drop_last s.nodes more_state.nodes (s.queues i).num seq h.ring more
              (λ p.
                rw (← node-previous more, ← node-next more)
                  (unlink-next s node p (next_apart more)))
              (λ p.
                rw (← node-previous more, ← node-next more)
                  (unlink-previous s node p (next_apart more))));
        tasks = λ j l.
            let task : IsTask s i (seq j) = h.tasks j (omega (arith, count)) in
            record {
              queue_num = same.queue_num (seq j) ∙ task.queue_num;
              live = rw same.live task.live;
              not_null = task.not_null;
              not_idle = task.not_idle;
            };
      }

  -- The last task of a queue is taken out of it.
  pub dequeue_task-Holds : Holds (dequeue_task node s) i seq
  dequeue_task-Holds = elim (ℕ_discrete (s.queues i).num 1) [
    | yes e ↦ rw (dequeue-only e) (only-Holds e)
    | no ne ↦ rw (dequeue-more (omega arith)) (more-Holds (omega arith))
  ]

  pub num-dequeue_task : ((dequeue_task node s).queues i).num ≡ (s.queues i).num - 1
  num-dequeue_task = elim (ℕ_discrete (s.queues i).num 1) [
    | yes e ↦ rw (dequeue-only e) (ground arith)
    | no ne ↦ rw (dequeue-more (omega arith)) (ground (arith, more_state-queue i))
  ]

  pub flags-dequeue_task : ((dequeue_task node s).queues i).flags ≡ (s.queues i).flags
  flags-dequeue_task = elim (ℕ_discrete (s.queues i).num 1) [
    | yes e ↦ rw (dequeue-only e) (ground arith)
    | no ne ↦ rw (dequeue-more (omega arith)) (ground (arith, more_state-queue i))
  ]

  pub context-dequeue_task : (p : ℕ) → ((dequeue_task node s).nodes p).context ≡ (s.nodes p).context
  context-dequeue_task p = elim (ℕ_discrete (s.queues i).num 1) [
    | yes e ↦ rw (dequeue-only e) refl
    | no ne ↦ rw (dequeue-more (omega arith)) ((unlink-SameBut s node).context p)
  ]

  -- The other queues do not change.
  pub dequeue_task-Leaves :
      (k : ℕ) (other : ℕ → ℕ) → k ≢ i → Holds s k other → Leaves s (dequeue_task node s) k other
  dequeue_task-Leaves k other ne hk = elim (ℕ_discrete (s.queues i).num 1) [
    | yes e ↦ rw (dequeue-only e) (record {
      queue_num = λ p. refl;
      live = λ j l. refl;
      num = ground arith;
      first = ground arith;
      next = λ j l. refl;
      previous = λ j l. refl;
    })
    | no z ↦
        let more : 1 < (s.queues i).num = omega arith in
        let same : SameBut s (unlink node s) = unlink-SameBut s node in
        rw (dequeue-more more) (record {
          queue_num = same.queue_num;
          live = λ j l. ap (λ (live : ℕ → Bool). live (other j)) same.live;
          num = ground (arith, more_state-queue k);
          first = ground (arith, more_state-queue k);
          next = λ j l. ground (
            arith,
            unlink-next s node (other j) (next_apart more),
            node-previous more,
            apart_from j ((s.queues i).num - 2) l (omega arith),
          );
          previous = λ j l. ground (
            arith,
            unlink-previous s node (other j) (next_apart more),
            node-next more,
            apart_from j 0 l (omega arith),
          );
        })
  ]
    where
      apart_from : (j m : ℕ) → j < (s.queues k).num → m < (s.queues i).num → other j ≢ seq m
      apart_from j m l l' e =
          let task : IsTask s k (other j) = hk.tasks j l in
          let task' : IsTask s i (seq m) = h.tasks m l' in
          omega (arith, task.queue_num, task'.queue_num, ap (λ p. (s.nodes p).queue_num) e)
