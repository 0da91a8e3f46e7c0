-- ===== src/Scheduler/Turns.antt =====
-- `scheduler_next_task` again and again on one processor: every task of the first queue has its turn.
use native.Mathlib.Decide.{ℕ_discrete}
use visual_os.Base.{
  ℕ, zero, suc, ◌%◌, ◌<◌, ◌≡◌, ◌≢◌, refl, true, false, bit_and, ◌==◌, arith, ap, ◌∙◌, inl, inr,
  Bool-cases,
}
use visual_os.Base.Bits.{bit_and-ones}
use visual_os.Base.Run.{ok, Cmd, pure, ◌>>=◌}
use visual_os.Atomic.{bt, atomic_lock}
use visual_os.Atomic.Laws.{bts-bt_ne}
use visual_os.Scheduler.State.{Scheduler}
use visual_os.Scheduler.{
  queues_num, flag_locked, flag_finished, queue_flag_locked, node_lock, set_ticks,
  scheduler_next_task,
}
use visual_os.Scheduler.Ring.{following, place}
use visual_os.Scheduler.Queues.{Leaves, Holds-Leaves}
use visual_os.Scheduler.Leave.{flags-Leaves}
use visual_os.Scheduler.Left.{Left, finished}
use visual_os.Scheduler.Scan.{passes, grabbed}
use visual_os.Scheduler.Next.{AllHold, rotated, Switched, next_task-Switched}

-- The processor is on the first task of queue 0, and nobody holds another task of the queue.
pub record Turn (s : Scheduler) (seqs : ℕ → ℕ → ℕ) (current : ℕ) : Type 0 where
  pub holds : AllHold s seqs
  pub some_task : 0 < (s.queues 0).num
  pub is_current : current ≡ seqs 0 0
  pub going : finished s current ≡ false
  pub waiting : (j : ℕ) → 0 < j → j < (s.queues 0).num → passes s (seqs 0 j) ≡ true
  pub off : bt (s.queues 0).flags queue_flag_locked ≡ false

passes-bits :
    (s : Scheduler) (p : ℕ)
    → bt (s.nodes p).context.flags flag_locked ≡ false
    → finished s p ≡ false
    → passes s p ≡ true
unfolding bt
passes-bits s p a b =
    let ones : bit_and (s.nodes p).context.flags 3 ≡ (s.nodes p).context.flags % 4 =
      bit_and-ones 2 (s.nodes p).context.flags in
    ground (arith, ones)

passes-context :
    (s t : Scheduler) (p : ℕ) → (t.nodes p).context ≡ (s.nodes p).context → passes t p ≡ passes s p
passes-context s t p e = rw e refl

passes-going : (s : Scheduler) (p : ℕ) → passes s p ≡ true → finished s p ≡ false
unfolding bt
passes-going s p h =
    let ones : bit_and (s.nodes p).context.flags 3 ≡ (s.nodes p).context.flags % 4 =
      bit_and-ones 2 (s.nodes p).context.flags in
    ground (arith, ones)

module _ (cq j p : ℕ) (s : Scheduler) where
  grabbed-nodes : (grabbed cq j p s).nodes ≡ (node_lock p s).0.nodes
  unfolding set_ticks
  grabbed-nodes = ground arith

  grabbed-queues : (grabbed cq j p s).queues ≡ s.queues
  unfolding set_ticks node_lock
  grabbed-queues = ground arith

  grabbed-Leaves : (k : ℕ) (seq : ℕ → ℕ) → Leaves s (grabbed cq j p s) k seq
  unfolding set_ticks node_lock
  grabbed-Leaves k seq = elim (Bool-cases (cq == j)) [
    | inl e ↦ rw e (flags-Leaves s p _ k seq)
    | inr e ↦
        let l : Leaves s (node_lock p s).0 k seq = flags-Leaves s p _ k seq in
        rw e (record {
          queue_num = l.queue_num;
          live = l.live;
          num = l.num;
          first = l.first;
          next = l.next;
          previous = l.previous;
        })
  ]

  pub grabbed-AllHold : (seqs : ℕ → ℕ → ℕ) → AllHold s seqs → AllHold (grabbed cq j p s) seqs
  grabbed-AllHold seqs h k l = Holds-Leaves s _ k (seqs k) (h k l) (grabbed-Leaves k (seqs k))

  grabbed-others : (q : ℕ) → q ≢ p → ((grabbed cq j p s).nodes q).context ≡ (s.nodes q).context
  unfolding node_lock
  grabbed-others q ne = rw grabbed-nodes (ground arith)

  grabbed-going : finished (grabbed cq j p s) p ≡ finished s p
  unfolding node_lock atomic_lock
  grabbed-going =
      rw grabbed-nodes (
        ground (arith, bts-bt_ne flag_locked flag_finished (s.nodes p).context.flags (omega arith)))

module _ (s : Scheduler) (seqs : ℕ → ℕ → ℕ) (current : ℕ) (turn : Turn s seqs current) where
  abbrev n : ℕ
  n = (s.queues 0).num

  abbrev seqs' : ℕ → ℕ → ℕ
  seqs' = rotated s seqs 0 0

  switched : Switched s seqs current 0 0
  switched =
      next_task-Switched s seqs current 0 0 turn.holds (omega arith) turn.some_task turn.is_current
        turn.off

  abbrev left : Left s current 0 0 (seqs 0) (visual_os.Scheduler.leave_task current s)
  left = switched.left

  abbrev after : Scheduler
  after = switched.left.after

  same_num : (after.queues 0).num ≡ n
  same_num = switched.left.num ∙ rw turn.going refl

  apart : (j : ℕ) → 0 < j → j < n → seqs 0 j ≢ current
  apart j a b e =
      let same : j ≡ 0 =
        (turn.holds 0 (omega arith)).ring.distinct j 0 b turn.some_task (e ∙ turn.is_current) in
      omega arith

  -- All tasks of the queue pass once the current one is left.
  all_pass : (j : ℕ) → j < n → passes after (seqs 0 j) ≡ true
  all_pass j l = elim (ℕ_discrete j 0) [
    | yes e ↦
        let unlocked = switched.left.unlocked turn.going in
        let going = switched.left.going turn.going in
        rw (e, ← turn.is_current) (passes-bits after current unlocked going)
    | no ne ↦
        passes-context s after (seqs 0 j)
          (switched.left.contexts (seqs 0 j) (apart j (omega arith) l))
        ∙ turn.waiting j (omega arith) l
  ]

  first_passes : (j : ℕ) → j < n → passes after (seqs' 0 j) ≡ true
  first_passes j l = all_pass (place n (following n 0) j) (ground arith)

  given : scheduler_next_task current s ≡ ok (seqs' 0 0) (grabbed 0 0 (seqs' 0 0) after)
  given = elim switched.given [
    | inl (i, k, c, run, on) ↦ elim (ℕ_discrete i 0) [
      | yes e ↦ elim (ℕ_discrete k 0) [
        | yes e' ↦ rw (e, e') at run
        | no ne ↦
            let skipped = c.before 0 (omega arith) in
            let skipped_here : passes after (seqs' 0 0) ≡ false = rw e at skipped in
            absurd (cc (skipped_here, first_passes 0 turn.some_task))
      ]
      | no ne ↦
          let skipped =
            c.earlier 0 (omega arith) (omega arith) 0 (omega (arith, same_num, turn.some_task)) in
          absurd (cc (skipped, first_passes 0 turn.some_task))
    ]
    | inr (none_left, run) ↦
        let skipped = none_left 0 (omega arith) 0 (omega (arith, same_num, turn.some_task)) in
        absurd (cc (skipped, first_passes 0 turn.some_task))
  ]

  abbrev t : Scheduler
  t = grabbed 0 0 (seqs' 0 0) after

  same_queues : t.queues ≡ after.queues
  same_queues = grabbed-queues 0 0 (seqs' 0 0) after

  num-turn : (t.queues 0).num ≡ n
  num-turn = rw same_queues same_num

  next-Turn : Turn t seqs' (seqs' 0 0)
  next-Turn = record {
    holds = grabbed-AllHold 0 0 (seqs' 0 0) after seqs' switched.holds;
    some_task = omega (arith, num-turn, turn.some_task);
    is_current = refl;
    going =
        grabbed-going 0 0 (seqs' 0 0) after
        ∙ passes-going after (seqs' 0 0) (first_passes 0 turn.some_task);
    waiting = λ j a b.
        let l : j < n = omega (arith, num-turn) in
        let ne : seqs' 0 j ≢ seqs' 0 0 = λ e.
          let same : j ≡ 0 =
            (switched.holds 0 (omega arith)).ring.distinct j 0 (omega (arith, same_num))
              (omega (arith, same_num, turn.some_task)) e in
          omega arith in
        passes-context after t (seqs' 0 j) (grabbed-others 0 0 (seqs' 0 0) after (seqs' 0 j) ne)
        ∙ first_passes j l;
    off = rw same_queues (ap (λ f. bt f queue_flag_locked) switched.left.lock ∙ turn.off);
  }

-- What the processor is on after `k` calls.
unfoldable pub turns : (k : ℕ) → ℕ → Cmd Scheduler ℕ
turns zero current = pure current
turns (suc k) current = do next ← scheduler_next_task current; turns k next

-- A processor on the first of the tasks of queue 0, none of which is finished or held by somebody else,
-- is given the others in their order, so that each has its turn: after `k` calls it is on task `k`.
pub turns-Fair :
    (k : ℕ) (s : Scheduler) (seqs : ℕ → ℕ → ℕ) (current : ℕ)
    → Turn s seqs current
    → k < (s.queues 0).num
    → (t : Scheduler) × (turns k current s ≡ ok (seqs 0 k) t)
unfolding turns
turns-Fair zero s seqs current turn l = (s, rw turn.is_current refl)
turns-Fair (suc k) s seqs current turn l =
    let n : ℕ = (s.queues 0).num in
    let (t, run) =
      turns-Fair k _ _ _ (next-Turn s seqs current turn)
        (omega (arith, num-turn s seqs current turn)) in
    let at : place (s.queues 0).num (following (s.queues 0).num 0) k ≡ suc k = ground arith in
    (t, rw (given s seqs current turn) (run ∙ ap (λ j. ok (seqs 0 j) t) at))
