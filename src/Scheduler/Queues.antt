-- ===== src/Scheduler/Queues.antt =====
-- What a queue of scheduler.c holds, and that adding a task keeps it.
use native.Mathlib.Decide.{ℕ_discrete}
use visual_os.Base.{
  ℕ, ◌+◌, ◌-◌, ◌^◌, ◌<◌, ◌≡◌, ◌≢◌, refl, Bool, true, false, ◌==◌, if◌then◌else◌, arith, ap, ◌∙◌,
  add64,
}
use visual_os.Scheduler.State.{Scheduler, null, idle_node}
use visual_os.Scheduler.{set_num, link_first, link_last, enqueue_task}
use visual_os.Scheduler.Links.{
  SameBut, link_last-next, link_last-previous, link_last-SameBut, link_first-next,
  link_first-previous, link_first-SameBut,
}
use visual_os.Scheduler.Ring.{Ring, append_at, Ring-append, Ring-frame, Ring-single}

-- A task of queue `i`.
pub record IsTask (s : Scheduler) (i p : ℕ) : Type 0 where
  pub queue_num : (s.nodes p).queue_num ≡ i
  pub live : s.live p ≡ true
  pub not_null : p ≢ null
  pub not_idle : p ≢ idle_node

-- Queue `i` holds the tasks `seq 0`, `seq 1`, … in this order.
pub record Holds (s : Scheduler) (i : ℕ) (seq : ℕ → ℕ) : Type 0 where
  pub few : (s.queues i).num < 2 ^ 63
  pub empty : (s.queues i).num ≡ 0 → (s.queues i).first ≡ null
  pub first : 0 < (s.queues i).num → (s.queues i).first ≡ seq 0
  pub ring : Ring s.nodes (s.queues i).num seq
  pub tasks : (j : ℕ) → j < (s.queues i).num → IsTask s i (seq j)

-- A change that leaves a queue and the links of its tasks alone.
pub record Leaves (s t : Scheduler) (i : ℕ) (seq : ℕ → ℕ) : Type 0 where
  pub queue_num : (p : ℕ) → (t.nodes p).queue_num ≡ (s.nodes p).queue_num
  pub live : (j : ℕ) → j < (s.queues i).num → t.live (seq j) ≡ s.live (seq j)
  pub num : (t.queues i).num ≡ (s.queues i).num
  pub first : (t.queues i).first ≡ (s.queues i).first
  pub next : (j : ℕ) → j < (s.queues i).num → (t.nodes (seq j)).next ≡ (s.nodes (seq j)).next
  pub previous :
      (j : ℕ) → j < (s.queues i).num → (t.nodes (seq j)).previous ≡ (s.nodes (seq j)).previous

pub Holds-Leaves :
    (s t : Scheduler) (i : ℕ) (seq : ℕ → ℕ) → Holds s i seq → Leaves s t i seq → Holds t i seq
Holds-Leaves s t i seq h l = record {
  few = omega (arith, h.few, l.num);
  empty = λ e. l.first ∙ h.empty (omega (arith, l.num));
  first = λ e. l.first ∙ h.first (omega (arith, l.num));
  ring = rw l.num (Ring-frame s.nodes t.nodes (s.queues i).num seq h.ring l.next l.previous);
  tasks = λ j k.
      let inside : j < (s.queues i).num = omega (arith, l.num) in
      let task : IsTask s i (seq j) = h.tasks j inside in
      record {
        queue_num = l.queue_num (seq j) ∙ task.queue_num;
        live = l.live j inside ∙ task.live;
        not_null = task.not_null;
        not_idle = task.not_idle;
      };
}

-- A task that can be added to the queue.
pub record IsFresh (s : Scheduler) (i node : ℕ) (seq : ℕ → ℕ) : Type 0 where
  pub task : IsTask s i node
  pub out : (j : ℕ) → j < (s.queues i).num → seq j ≢ node
  pub room : (s.queues i).num + 1 < 2 ^ 63

module _ (s : Scheduler) (i node : ℕ) (seq : ℕ → ℕ) (h : Holds s i seq)
    (f : IsFresh s i node seq) where
  enqueue-first : (s.queues i).num ≡ 0 → enqueue_task node s ≡ set_num i 1 (link_first i node s)
  unfolding enqueue_task link_first
  enqueue-first e = rw (f.task.queue_num, e) (ground arith)

  enqueue-last :
      0 < (s.queues i).num
      → enqueue_task node s ≡ set_num i ((s.queues i).num + 1) (link_last (seq 0) node s)
  unfolding enqueue_task link_last
  enqueue-last more =
      let some_task : ((s.queues i).num == 0) ≡ false = ground arith in
      let next : add64 (s.queues i).num 1 ≡ (s.queues i).num + 1 = omega (arith, h.few) in
      rw (f.task.queue_num, some_task, h.first more, next) refl

  IsTask-SameBut : (t : Scheduler) (p : ℕ) → SameBut s t → IsTask s i p → IsTask t i p
  IsTask-SameBut t p same k = record {
    queue_num = same.queue_num p ∙ k.queue_num;
    live = rw same.live k.live;
    not_null = k.not_null;
    not_idle = k.not_idle;
  }

  first_apart : 0 < (s.queues i).num → seq 0 ≢ node
  first_apart more = f.out 0 more

  last_of_first : 0 < (s.queues i).num → (s.nodes (seq 0)).previous ≡ seq ((s.queues i).num - 1)
  last_of_first more =
      let next : (s.queues i).num - 1 + 1 ≡ (s.queues i).num = omega arith in
      ground (arith, h.ring.previous ((s.queues i).num - 1))

  last_apart : 0 < (s.queues i).num → (s.nodes (seq 0)).previous ≢ node
  last_apart more = rw (last_of_first more) (f.out ((s.queues i).num - 1) (omega arith))

  tasks-append :
      (t : Scheduler)
      → SameBut s t
      → (j : ℕ) → j < (s.queues i).num + 1
      → IsTask t i (append_at (s.queues i).num node seq j)
  tasks-append t same j k = elim (ℕ_discrete j (s.queues i).num) [
    | yes e ↦
        let here : (j == (s.queues i).num) ≡ true = ground arith in
        rw here (IsTask-SameBut t node same f.task)
    | no ne ↦
        let there : (j == (s.queues i).num) ≡ false = ground arith in
        rw there (IsTask-SameBut t (seq j) same (h.tasks j (omega arith)))
  ]

  abbrev first_state : Scheduler
  first_state = set_num i 1 (link_first i node s)

  abbrev last_state : Scheduler
  last_state = set_num i ((s.queues i).num + 1) (link_last (seq 0) node s)

  first_state-SameBut : SameBut s first_state
  first_state-SameBut =
      let same : SameBut s (link_first i node s) = link_first-SameBut s i node in
      record {
        context = same.context;
        queue_num = same.queue_num;
        live = same.live;
        tid_accumulator = same.tid_accumulator;
        ticks_table = same.ticks_table;
        timer_count = same.timer_count;
      }

  last_state-SameBut : SameBut s last_state
  last_state-SameBut =
      let same : SameBut s (link_last (seq 0) node s) = link_last-SameBut s (seq 0) node in
      record {
        context = same.context;
        queue_num = same.queue_num;
        live = same.live;
        tid_accumulator = same.tid_accumulator;
        ticks_table = same.ticks_table;
        timer_count = same.timer_count;
      }

  first_state-queue :
      (k : ℕ)
      → first_state.queues k ≡ (
          if k == i
          then record { first = node; num = 1; flags = (s.queues i).flags }
          else s.queues k)
  unfolding link_first
  first_state-queue k = ground arith

  last_state-queue :
      (k : ℕ)
      → last_state.queues k ≡ (
          if k == i
          then record {
            first = (s.queues i).first;
            num = (s.queues i).num + 1;
            flags = (s.queues i).flags;
          }
          else s.queues k)
  unfolding link_last
  last_state-queue k = ground arith

  first-Holds : (s.queues i).num ≡ 0 → Holds first_state i (append_at (s.queues i).num node seq)
  first-Holds e =
      let one : (first_state.queues i).num ≡ 1 = ground (arith, first_state-queue i) in
      record {
        few = omega (arith, one);
        empty = λ z. absurd (omega (arith, one));
        first = λ z. ground (arith, first_state-queue i);
        ring = rw one (
            Ring-single first_state.nodes node (ground (arith, link_first-next s i node node))
              (ground (arith, link_first-previous s i node node))
              (append_at (s.queues i).num node seq) (ground arith));
        tasks = λ j k. tasks-append first_state first_state-SameBut j (omega (arith, one));
      }

  last-Holds : 0 < (s.queues i).num → Holds last_state i (append_at (s.queues i).num node seq)
  last-Holds more =
      let count : (last_state.queues i).num ≡ (s.queues i).num + 1 =
        ground (arith, last_state-queue i) in
      record {
        few = omega (arith, count, f.room);
        empty = λ z. absurd (omega (arith, count));
        first = λ z. ground (arith, last_state-queue i, h.first more);
        ring = rw count (
            Ring-append s.nodes last_state.nodes (s.queues i).num seq h.ring node more f.out
              (λ p.
                rw (← last_of_first more)
                  (link_last-next s (seq 0) node p (first_apart more) (last_apart more)))
              (λ p.
                rw (← last_of_first more)
                  (link_last-previous s (seq 0) node p (first_apart more) (last_apart more))));
        tasks = λ j k. tasks-append last_state last_state-SameBut j (omega (arith, count));
      }

  -- A task that is added stands behind all others of its queue.
  pub enqueue_task-Holds : Holds (enqueue_task node s) i (append_at (s.queues i).num node seq)
  enqueue_task-Holds = elim (ℕ_discrete (s.queues i).num 0) [
    | yes e ↦ rw (enqueue-first e) (first-Holds e)
    | no ne ↦ rw (enqueue-last (omega arith)) (last-Holds (omega arith))
  ]

  pub flags-enqueue_task : ((enqueue_task node s).queues i).flags ≡ (s.queues i).flags
  flags-enqueue_task = elim (ℕ_discrete (s.queues i).num 0) [
    | yes e ↦ rw (enqueue-first e) (ground (arith, first_state-queue i))
    | no ne ↦ rw (enqueue-last (omega arith)) (ground (arith, last_state-queue i))
  ]

  pub context-enqueue_task : (p : ℕ) → ((enqueue_task node s).nodes p).context ≡ (s.nodes p).context
  context-enqueue_task p = elim (ℕ_discrete (s.queues i).num 0) [
    | yes e ↦ rw (enqueue-first e) (first_state-SameBut.context p)
    | no ne ↦ rw (enqueue-last (omega arith)) (last_state-SameBut.context p)
  ]

  pub num-enqueue_task : ((enqueue_task node s).queues i).num ≡ (s.queues i).num + 1
  num-enqueue_task = elim (ℕ_discrete (s.queues i).num 0) [
    | yes e ↦ rw (enqueue-first e) (ground (arith, first_state-queue i))
    | no ne ↦ rw (enqueue-last (omega arith)) (ground (arith, last_state-queue i))
  ]

  -- The other queues do not change.
  pub enqueue_task-Leaves :
      (k : ℕ) (other : ℕ → ℕ) → k ≢ i → Holds s k other → Leaves s (enqueue_task node s) k other
  enqueue_task-Leaves k other ne hk = elim (ℕ_discrete (s.queues i).num 0) [
    | yes e ↦ rw (enqueue-first e) (record {
      queue_num = first_state-SameBut.queue_num;
      live = λ j l. ap (λ (live : ℕ → Bool). live (other j)) first_state-SameBut.live;
      num = ground (arith, first_state-queue k);
      first = ground (arith, first_state-queue k);
      next = λ j l. ground (arith, link_first-next s i node (other j), apart j l);
      previous = λ j l. ground (arith, link_first-previous s i node (other j), apart j l);
    })
    | no z ↦
        let more : 0 < (s.queues i).num = omega arith in
        rw (enqueue-last more) (record {
          queue_num = last_state-SameBut.queue_num;
          live = λ j l. ap (λ (live : ℕ → Bool). live (other j)) last_state-SameBut.live;
          num = ground (arith, last_state-queue k);
          first = ground (arith, last_state-queue k);
          next = λ j l. ground (
            arith,
            link_last-next s (seq 0) node (other j) (first_apart more) (last_apart more),
            apart j l,
            last_of_first more,
            apart_from j ((s.queues i).num - 1) l (omega arith),
          );
          previous = λ j l. ground (
            arith,
            link_last-previous s (seq 0) node (other j) (first_apart more) (last_apart more),
            apart j l,
            apart_from j 0 l more,
          );
        })
  ]
    where
      apart : (j : ℕ) → j < (s.queues k).num → other j ≢ node
      apart j l e =
          let task : IsTask s k (other j) = hk.tasks j l in
          omega (arith, task.queue_num, f.task.queue_num, ap (λ p. (s.nodes p).queue_num) e)

      apart_from : (j m : ℕ) → j < (s.queues k).num → m < (s.queues i).num → other j ≢ seq m
      apart_from j m l l' e =
          let task : IsTask s k (other j) = hk.tasks j l in
          let task' : IsTask s i (seq m) = h.tasks m l' in
          omega (arith, task.queue_num, task'.queue_num, ap (λ p. (s.nodes p).queue_num) e)
