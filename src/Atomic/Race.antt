-- ===== src/Atomic/Race.antt =====
-- Two lock bits in one word, as the pageframe mutex of src/kernel/memory/pageframe.c has them.
use visual_os.Base.{ℕ, ◌≡◌, ◌≢◌, refl, false, update, ◌⊎◌, inl, inr}
use visual_os.Atomic.{bt, bts, btr}
use visual_os.Atomic.Laws.{bts-bt_ne, btr-bt_ne}
use visual_os.Atomic.Spinlock.{
  idle, waiting, holds, storing, call, acquire, read, store, System, pick, Reach, here, next, quiet,
}

bts-off : (w b : ℕ) → bt w b ≡ false → bts w b ≡ ((bts w b).0, false)
unfolding bts
bts-off w b off = rw off

module _ (a b w : ℕ) (ne : a ≢ b) (a_off : bt w a ≡ false) (b_off : bt w b ≡ false) where
  -- Processor 0 has bit `a`; its `btr` reads this word.
  abbrev locked : ℕ
  locked = (bts w a).0

  -- Meanwhile processor 1 takes bit `b`, and processor 0 stores this word.
  abbrev stale : ℕ
  stale = (btr locked a).0

  locked-b_off : bt locked b ≡ false
  locked-b_off = rw (bts-bt_ne a b w ne) b_off

  stale-b_off : bt stale b ≡ false
  stale-b_off = rw (btr-bt_ne a b locked ne) locked-b_off

  abbrev last : System
  last = record {
    word = (bts stale b).0;
    pc =
        update
          (update
            (update
              (update
                (update
                  (update (update (update (λ i. idle) 0 (waiting a)) 0 (holds a)) 1 (waiting b)) 0
                  (storing a locked))
                1 (holds b))
              0 idle)
            2 (waiting b))
          2 (holds b);
  }

  -- From any word with two distinct bits `a` and `b` off, an `atomic_unlock` of bit `a` that runs
  -- beside an `atomic_spinlock` of bit `b` can undo the lock, so that processors 1 and 2 own bit
  -- `b` together.
  pub lost_lock :
      (t : System) × Reach (λ c. (c ≡ a) ⊎ (c ≡ b)) (quiet w) t
      × (t.pc 1 ≡ holds b)
      × (t.pc 2 ≡ holds b)
  lost_lock = (last, trace, refl, refl)
    where
      trace : Reach (λ c. (c ≡ a) ⊎ (c ≡ b)) (quiet w) last
      trace =
          next
            (next
              (next
                (next
                  (next
                    (next
                      (next (next here (pick 0 (call a) (λ c e. inl (cc))))
                        (pick 0 (acquire (bts-off w a a_off)) (λ c e. absurd (cc))))
                      (pick 1 (call b) (λ c e. inr (cc))))
                    (pick 0 read (λ c e. absurd (cc))))
                  (pick 1 (acquire (bts-off locked b locked-b_off)) (λ c e. absurd (cc))))
                (pick 0 (store refl) (λ c e. absurd (cc))))
              (pick 2 (call b) (λ c e. inr (cc))))
            (pick 2 (acquire (bts-off stale b stale-b_off)) (λ c e. absurd (cc)))
