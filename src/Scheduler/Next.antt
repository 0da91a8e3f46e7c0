-- ===== src/Scheduler/Next.antt =====
-- `scheduler_next_task`: which task a processor gets.
use native.Mathlib.Decide.{ℕ_discrete}
use visual_os.Base.{
  ℕ, zero, suc, ◌+◌, ◌-◌, ◌<◌, ◌≤◌, ◌≡◌, ◌≢◌, refl, true, false, Option, none, some, bit_and, ◌==◌,
  if◌then◌else◌, arith, ap, ◌∙◌, ◌⊎◌, inl, inr, Bool-cases, u64_mod,
}
use visual_os.Base.Bits.{bit_and-zero}
use visual_os.Base.Run.{Run, ok}
use visual_os.Atomic.{bt, atomic_lock}
use visual_os.Atomic.Laws.{bts-bt_self}
use visual_os.Scheduler.State.{Scheduler, null, idle_node}
use visual_os.Scheduler.{
  queues_num, flag_locked, queue_flag_locked, scan_queue, node_lock, set_ticks, scan_queues,
  leave_task, leave_current, scheduler_next_task,
}
use visual_os.Scheduler.Ring.{following, rotate}
use visual_os.Scheduler.Queues.{IsTask, Holds}
use visual_os.Scheduler.Left.{Left, leave_task-Left}
use visual_os.Scheduler.Scan.{passes, grabbed, scan_queue-First}

-- The three queues hold the tasks of `seqs`.
abbrev pub AllHold : Scheduler → (ℕ → ℕ → ℕ) → Type 0
AllHold s seqs = (i : ℕ) → i < queues_num → Holds s i (seqs i)

-- No task of queue `i` passes.
abbrev pub NonePass : Scheduler → (ℕ → ℕ → ℕ) → ℕ → Type 0
NonePass s seqs i = (m : ℕ) → m < (s.queues i).num → passes s (seqs i m) ≡ false

-- Task `k` of queue `i` is the first that passes, the queues read in order.
pub record Chosen (s : Scheduler) (seqs : ℕ → ℕ → ℕ) (from i k : ℕ) : Type 0 where
  pub after : from ≤ i
  pub queue : i < queues_num
  pub inside : k < (s.queues i).num
  pub passing : passes s (seqs i k) ≡ true
  pub before : (m : ℕ) → m < k → passes s (seqs i m) ≡ false
  pub earlier : (j : ℕ) → from ≤ j → j < i → NonePass s seqs j

abbrev Picked : Scheduler → (ℕ → ℕ → ℕ) → ℕ → ℕ → Scheduler × Option ℕ → Type 0
Picked s seqs from cq r =
    ((i k : ℕ) × Chosen s seqs from i k × (r ≡ (grabbed cq k (seqs i k) s, some (seqs i k))))
    ⊎ (((j : ℕ) → from ≤ j → j < queues_num → NonePass s seqs j) × (r ≡ (s, none)))

skip-queue :
    (rounds i cq : ℕ) (s : Scheduler)
    → ((s.queues i).first == null) ≡ true
    → scan_queues (suc rounds) i cq s ≡ scan_queues rounds (i + 1) cq s
unfolding scan_queues
skip-queue rounds i cq s h = rw (h, scan_queues) refl

module _ (rounds i cq : ℕ) (s : Scheduler) (some_first : ((s.queues i).first == null) ≡ false) where
  -- The test of the queue's flags is with the mask 0.
  never_masked : bit_and (s.queues i).flags flag_locked ≡ 0
  never_masked = bit_and-zero (s.queues i).flags

  take-queue :
      (t : Scheduler) (p : ℕ)
      → scan_queue (s.queues i).num 0 cq (s.queues i).first s ≡ (t, some p)
      → scan_queues (suc rounds) i cq s ≡ (t, some p)
  unfolding scan_queues
  take-queue t p e =
      let e0 : (scan_queue (s.queues i).num 0 cq (s.queues i).first s).0 ≡ t =
        ap (λ (r : Scheduler × Option ℕ). r.0) e in
      let e1 : (scan_queue (s.queues i).num 0 cq (s.queues i).first s).1 ≡ some p =
        ap (λ (r : Scheduler × Option ℕ). r.1) e in
      rw (some_first, never_masked, e1, e0, scan_queues) refl

  pass-queue :
      scan_queue (s.queues i).num 0 cq (s.queues i).first s ≡ (s, none)
      → scan_queues (suc rounds) i cq s ≡ scan_queues rounds (i + 1) cq s
  unfolding scan_queues
  pass-queue e =
      let e0 : (scan_queue (s.queues i).num 0 cq (s.queues i).first s).0 ≡ s =
        ap (λ (r : Scheduler × Option ℕ). r.0) e in
      let e1 : (scan_queue (s.queues i).num 0 cq (s.queues i).first s).1 ≡ none =
        ap (λ (r : Scheduler × Option ℕ). r.1) e in
      rw (some_first, never_masked, e1, e0, scan_queues) refl

scan_queues-Picked :
    (rounds i cq : ℕ) (s : Scheduler) (seqs : ℕ → ℕ → ℕ)
    → AllHold s seqs
    → i + rounds ≡ queues_num
    → Picked s seqs i cq (scan_queues rounds i cq s)
scan_queues-Picked zero i cq s seqs h e =
    inr (λ j a b. absurd (omega arith), unfold scan_queues in refl)
scan_queues-Picked (suc rounds) i cq s seqs h e =
    let hi : Holds s i (seqs i) = h i (omega arith) in
    let later : NonePass s seqs i
        → scan_queues (suc rounds) i cq s ≡ scan_queues rounds (i + 1) cq s
        → Picked s seqs i cq (scan_queues (suc rounds) i cq s) =
      λ none_here step. elim (scan_queues-Picked rounds (i + 1) cq s seqs h (omega arith)) [
        | inl (i', k, c, run) ↦ inl (
          i',
          k,
          record {
            after = omega (arith, c.after);
            queue = c.queue;
            inside = c.inside;
            passing = c.passing;
            before = c.before;
            earlier = λ j a b. elim (ℕ_discrete j i) [
              | yes same ↦ rw same none_here
              | no ne ↦ c.earlier j (omega arith) b
            ];
          },
          step ∙ run,
        )
        | inr (none_left, run) ↦ inr (
          λ j a b. elim (ℕ_discrete j i) [
            | yes same ↦ rw same none_here
            | no ne ↦ none_left j (omega arith) b
          ],
          step ∙ run,
        )
      ] in
    elim (ℕ_discrete (s.queues i).num 0) [
      | yes nothing ↦
          let at_null : ((s.queues i).first == null) ≡ true = ground (arith, hi.empty nothing) in
          later (λ m l. absurd (omega arith)) (skip-queue rounds i cq s at_null)
      | no something ↦
          let begins : (s.queues i).first ≡ seqs i 0 = hi.first (omega arith) in
          let task : IsTask s i (seqs i 0) = hi.tasks 0 (omega arith) in
          let some_first : ((s.queues i).first == null) ≡ false = ground (arith, task.not_null) in
          elim (scan_queue-First (s.queues i).num 0 cq (s.queues i).first (s.queues i).num s
            (seqs i) hi.ring (omega arith) (λ l. begins)) [
              | inl (k, f) ↦ inl (
                i,
                k,
                record {
                  after = omega arith;
                  queue = omega arith;
                  inside = f.inside;
                  passing = f.passing;
                  before = λ m l. f.before m (omega arith) l;
                  earlier = λ j a b. absurd (omega arith);
                },
                take-queue rounds i cq s some_first _ _ f.result,
              )
              | inr f ↦
                  later (λ m l. f.all m (omega arith) l)
                    (pass-queue rounds i cq s some_first f.result)
            ]
    ]

-- The lock bit of the task is on.
abbrev pub IsLocked : Scheduler → ℕ → Type 0
IsLocked s p = bt (s.nodes p).context.flags flag_locked ≡ true

grabbed-IsLocked : (cq j p : ℕ) (s : Scheduler) → IsLocked (grabbed cq j p s) p
unfolding set_ticks node_lock atomic_lock
grabbed-IsLocked cq j p s =
    let on = bts-bt_self (s.nodes p).context.flags flag_locked in
    elim (Bool-cases (cq == j)) [
      | inl e ↦ rw e (ground (arith, on))
      | inr e ↦ rw e (ground (arith, on))
    ]

-- What a processor is given after it left its task: the first task that passes, whose lock bit is then on;
-- or the idle task.
abbrev pub Given : Scheduler → (ℕ → ℕ → ℕ) → ℕ → Run Scheduler ℕ → Type 0
Given s seqs cq r =
    ((i k : ℕ) × Chosen s seqs 0 i k
      × (r ≡ ok (seqs i k) (grabbed cq k (seqs i k) s))
      × IsLocked (grabbed cq k (seqs i k) s) (seqs i k))
    ⊎ (((j : ℕ) → j < queues_num → NonePass s seqs j) × (r ≡ ok idle_node s))

module _ (s t : Scheduler) (current cq : ℕ) (left : leave_current current s ≡ ok cq t) where
  next-found :
      (u : Scheduler) (p : ℕ)
      → scan_queues queues_num 0 cq t ≡ (u, some p)
      → scheduler_next_task current s ≡ ok p u
  unfolding scheduler_next_task
  next-found u p e =
      let e0 : (scan_queues queues_num 0 cq t).0 ≡ u = ap (λ (r : Scheduler × Option ℕ). r.0) e in
      let e1 : (scan_queues queues_num 0 cq t).1 ≡ some p =
        ap (λ (r : Scheduler × Option ℕ). r.1) e in
      rw (left, e1, e0) refl

  next-idle :
      scan_queues queues_num 0 cq t ≡ (t, none) → scheduler_next_task current s ≡ ok idle_node t
  unfolding scheduler_next_task
  next-idle e =
      let e0 : (scan_queues queues_num 0 cq t).0 ≡ t = ap (λ (r : Scheduler × Option ℕ). r.0) e in
      let e1 : (scan_queues queues_num 0 cq t).1 ≡ none =
        ap (λ (r : Scheduler × Option ℕ). r.1) e in
      rw (left, e1, e0) refl

  next-Given : (seqs : ℕ → ℕ → ℕ) → AllHold t seqs → Given t seqs cq (scheduler_next_task current s)
  next-Given seqs h = elim (scan_queues-Picked queues_num 0 cq t seqs h refl) [
    | inl (i, k, c, e) ↦ inl (i, k, c, next-found _ _ e, grabbed-IsLocked cq k (seqs i k) t)
    | inr (none_left, e) ↦ inr (λ j l. none_left j (omega arith) l, next-idle e)
  ]

-- Without a current task to leave, `scheduler_next_task` returns the first task, the queues read in
-- order, that is neither locked nor finished, with its lock bit now on; if there is none, it returns
-- the idle task and changes nothing.
pub idle-Given :
    (s : Scheduler) (current : ℕ) (seqs : ℕ → ℕ → ℕ)
    → AllHold s seqs
    → (current ≡ null) ⊎ (current ≡ idle_node)
    → Given s seqs (u64_mod - 1) (scheduler_next_task current s)
idle-Given s current seqs h which = next-Given s s current (u64_mod - 1) (stays which) seqs h
  where
    stays : (current ≡ null) ⊎ (current ≡ idle_node) → leave_current current s ≡ ok (u64_mod - 1) s
    stays (inl e) = rw e (unfold leave_current in refl)
    stays (inr e) = rw e (unfold leave_current in refl)

leaves_task :
    (s : Scheduler) (current : ℕ)
    → current ≢ null
    → current ≢ idle_node
    → leave_current current s ≡ leave_task current s
unfolding leave_current
leaves_task s current not_null not_idle =
    let z : (current == 0) ≡ false = ground (arith, not_null) in
    let n : (current == idle_node) ≡ false = ground (arith, not_idle) in
    rw (z, n, leave_current) refl

-- The queues after task `c` of queue `i` was left.
abbrev pub rotated : Scheduler → (ℕ → ℕ → ℕ) → (i c : ℕ) → ℕ → ℕ → ℕ
rotated s seqs i c j =
    if j == i then rotate (s.queues i).num (following (s.queues i).num c) (seqs i) else seqs j

-- What a processor gets that was on task `c` of queue `i`.
pub record Switched (s : Scheduler) (seqs : ℕ → ℕ → ℕ) (current i c : ℕ) : Type 0 where
  pub left : Left s current i c (seqs i) (leave_task current s)
  pub holds : AllHold left.after (rotated s seqs i c)
  pub given : Given left.after (rotated s seqs i c) i (scheduler_next_task current s)

-- A processor on a task of a queue whose lock bit is off leaves it, as `leave_task` does, and gets the
-- first task that passes in the queues as they are then, with its lock bit on, or the idle task if
-- there is none; the queues hold the same tasks, rotated.
pub next_task-Switched :
    (s : Scheduler) (seqs : ℕ → ℕ → ℕ) (current i c : ℕ)
    → AllHold s seqs
    → i < queues_num
    → c < (s.queues i).num
    → current ≡ seqs i c
    → bt (s.queues i).flags queue_flag_locked ≡ false
    → Switched s seqs current i c
next_task-Switched s seqs current i c h il cl is_current off = record {
  left = left;
  holds = holds;
  given =
      next-Given s left.after current i
        (leaves_task s current task.not_null task.not_idle ∙ left.run) (rotated s seqs i c) holds;
}
  where
    task : IsTask s i current
    task = rw is_current ((h i il).tasks c cl)

    left : Left s current i c (seqs i) (leave_task current s)
    left = leave_task-Left s current i c (seqs i) (h i il) cl is_current off

    holds : AllHold left.after (rotated s seqs i c)
    holds j jl = elim (ℕ_discrete j i) [
      | yes e ↦ let here : (j == i) ≡ true = ground arith in rw (here, e) left.holds
      | no ne ↦
          let there : (j == i) ≡ false = ground arith in
          rw there (left.others j (seqs j) ne (h j jl))
    ]
