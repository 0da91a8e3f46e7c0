-- ===== src/Scheduler/Scan.antt =====
-- The search of `scheduler_next_task` for a task that is neither locked nor finished.
use native.Mathlib.Decide.{ℕ_discrete}
use visual_os.Base.{
  ℕ, zero, suc, ◌+◌, ◌%◌, ◌<◌, ◌≤◌, ◌≡◌, refl, Bool, true, false, Option, none, some, bit_and, ◌==◌,
  arith, ◌∙◌, ◌⊎◌, inl, inr, Bool-cases,
}
use visual_os.Base.Bits.{bit_and-ones}
use visual_os.Atomic.{bt, atomic_lock}
use visual_os.Scheduler.State.{Scheduler}
use visual_os.Scheduler.{pass_flags, node_lock, set_ticks, scan_queue}
use visual_os.Scheduler.Ring.{Ring}

-- The task can be given to a processor.
abbrev pub passes : Scheduler → ℕ → Bool
passes s p = bit_and (s.nodes p).context.flags pass_flags == 0

-- The state after task `p`, found at place `j`, was locked.
abbrev pub grabbed : ℕ → ℕ → ℕ → Scheduler → Scheduler
grabbed current_queue_num j p s = set_ticks current_queue_num j (node_lock p s).0

pub lock-passes : (s : Scheduler) (p : ℕ) → passes s p ≡ true → (node_lock p s).1 ≡ true
unfolding node_lock atomic_lock bt
lock-passes s p h =
    let ones : bit_and (s.nodes p).context.flags 3 ≡ (s.nodes p).context.flags % 4 =
      bit_and-ones 2 (s.nodes p).context.flags in
    ground (arith, ones)

scan-here :
    (rounds j cq node : ℕ) (s : Scheduler)
    → passes s node ≡ true
    → scan_queue (suc rounds) j cq node s ≡ (grabbed cq j node s, some node)
unfolding scan_queue
scan-here rounds j cq node s h = rw (h, lock-passes s node h, scan_queue) refl

scan-next :
    (rounds j cq node : ℕ) (s : Scheduler)
    → passes s node ≡ false
    → scan_queue (suc rounds) j cq node s ≡ scan_queue rounds (j + 1) cq (s.nodes node).next s
unfolding scan_queue
scan-next rounds j cq node s h = rw (h, scan_queue) refl

-- The first of the tasks `seq from`, … that passes, or none of them.
pub record First (s : Scheduler) (seq : ℕ → ℕ) (from n cq k : ℕ) (r : Scheduler × Option ℕ)
    : Type 0 where
  pub after : from ≤ k
  pub inside : k < n
  pub passing : passes s (seq k) ≡ true
  pub before : (m : ℕ) → from ≤ m → m < k → passes s (seq m) ≡ false
  pub result : r ≡ (grabbed cq k (seq k) s, some (seq k))

pub record NoneOf (s : Scheduler) (seq : ℕ → ℕ) (from n : ℕ) (r : Scheduler × Option ℕ)
    : Type 0 where
  pub all : (m : ℕ) → from ≤ m → m < n → passes s (seq m) ≡ false
  pub result : r ≡ (s, none)

pub scan_queue-First :
    (rounds j cq node n : ℕ) (s : Scheduler) (seq : ℕ → ℕ)
    → Ring s.nodes n seq
    → j + rounds ≡ n
    → (0 < rounds → node ≡ seq j)
    → ((k : ℕ) × First s seq j n cq k (scan_queue rounds j cq node s))
      ⊎ NoneOf s seq j n (scan_queue rounds j cq node s)
scan_queue-First zero j cq node n s seq r e at =
    inr (record { all = λ m a b. absurd (omega arith); result = unfold scan_queue in refl })
scan_queue-First (suc rounds) j cq node n s seq r e at =
    let here : node ≡ seq j = at (omega arith) in
    elim (Bool-cases (passes s node)) [
      | inl yes_here ↦ inl (
        j,
        record {
          after = omega arith;
          inside = omega arith;
          passing = rw (← here) yes_here;
          before = λ m a b. absurd (omega arith);
          result = rw (← here) (scan-here rounds j cq node s yes_here);
        },
      )
      | inr not_here ↦
          let step = scan-next rounds j cq node s not_here in
          let link : 0 < rounds → (s.nodes node).next ≡ seq (j + 1) =
            λ more. rw here (ground (arith, r.next j)) in
          elim (scan_queue-First rounds (j + 1) cq (s.nodes node).next n s seq r (omega arith)
            link) [
              | inl (k, f) ↦ inl (
                k,
                record {
                  after = omega (arith, f.after);
                  inside = f.inside;
                  passing = f.passing;
                  before = λ m a b. elim (ℕ_discrete m j) [
                    | yes same ↦ rw (same, ← here) not_here
                    | no ne ↦ f.before m (omega arith) b
                  ];
                  result = step ∙ f.result;
                },
              )
              | inr none_left ↦ inr (record {
                all = λ m a b. elim (ℕ_discrete m j) [
                  | yes same ↦ rw (same, ← here) not_here
                  | no ne ↦ none_left.all m (omega arith) b
                ];
                result = step ∙ none_left.result;
              })
            ]
    ]
