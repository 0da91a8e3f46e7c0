-- ===== src/Atomic/Tests.antt =====
-- Runs of the atomic operations, and the theorems about them at concrete words.
use visual_os.Base.{ℕ, ◌≡◌, refl, true, false, not, update, ◌-◌, ◌^◌, none, ◌⊎◌, arith}
use visual_os.Atomic.{bt, bts, atomic_lock, atomic_unlock, atomic_spinlock, atomic_accumulate}
use visual_os.Atomic.Laws.{atomic_lock-unlock}
use visual_os.Atomic.Spinlock.{
  System, idle, waiting, holds, owner, call, acquire, pick, Reach, here, next, quiet,
}
use visual_os.Atomic.Spinlock.Exclusion.{mutual_exclusion}
use visual_os.Atomic.Race.{lost_lock}

lock_free : atomic_lock 0b100 0 ≡ (0b101, true)
unfolding atomic_lock
lock_free = refl

lock_taken : atomic_lock 0b101 0 ≡ (0b101, false)
unfolding atomic_lock
lock_taken = refl

spin_on_taken : atomic_spinlock 0b10 1 ≡ none
unfolding atomic_spinlock
spin_on_taken = refl

accumulate_wraps : atomic_accumulate (2 ^ 64 - 1) 1 ≡ (0, 2 ^ 64 - 1)
unfolding atomic_accumulate
accumulate_wraps = refl

atomic_lock-unlock_example :
    (bt (atomic_lock 0b100 1).0 1 ≡ true)
    × (bt (atomic_lock 0b100 1).0 2 ≡ bt 0b100 2)
    × ((atomic_lock 0b100 1).1 ≡ not (bt 0b100 1))
    × (bt (atomic_unlock 0b100 1).0 1 ≡ false)
    × (bt (atomic_unlock 0b100 1).0 2 ≡ bt 0b100 2)
    × ((atomic_unlock 0b100 1).1 ≡ not (bt 0b100 1))
    × ((atomic_unlock (atomic_lock 0b100 1).0 1).0 ≡ (atomic_unlock 0b100 1).0)
atomic_lock-unlock_example = atomic_lock-unlock 0b100 1 2 (omega arith)

-- Processor 0 has bit 0, and processor 1 waits for it.
abbrev contended : System
contended = record {
  word = 1;
  pc = update (update (update (λ i. idle) 0 (waiting 0)) 0 (holds 0)) 1 (waiting 0);
}

contended-Reach : Reach (λ c. c ≡ 0) (quiet 0) contended
unfolding bts
contended-Reach =
    next
      (next (next here (pick 0 (call 0) (λ c e. cc))) (pick 0 (acquire refl) (λ c e. absurd (cc))))
      (pick 1 (call 0) (λ c e. cc))

mutual_exclusion_example :
    ((i j : ℕ) → owner (contended.pc i) ≡ true → owner (contended.pc j) ≡ true → i ≡ j)
    × ((i : ℕ) → owner (contended.pc i) ≡ true → bt contended.word 0 ≡ true)
mutual_exclusion_example = mutual_exclusion 0 0 contended-Reach

lost_lock_example :
    (t : System) × Reach (λ c. (c ≡ 1) ⊎ (c ≡ 0)) (quiet 0) t
    × (t.pc 1 ≡ holds 0)
    × (t.pc 2 ≡ holds 0)
unfolding bt
lost_lock_example = lost_lock 1 0 0 (omega arith) refl refl
