-- ===== src/Atomic/Spinlock.antt =====
-- Processors that contend for one 64-bit word with `atomic_spinlock` and `atomic_unlock` of
-- src/kernel/x86_64/atomic.asm. `lock bts` is one step. `btr` has no `lock` prefix there, so it is
-- two: it reads the word, and later stores the word that it computed.
pub mod Exclusion
use visual_os.Base.{ℕ, ◌≡◌, Bool, true, false, update}
use visual_os.Atomic.{bts, btr}

pub data Pc : Type 0 where
  -- outside the two functions, with no lock
  idle : Pc
  -- in `atomic_spinlock`, before the `lock bts` that succeeds
  waiting : ℕ → Pc
  -- `atomic_spinlock` has returned
  holds : ℕ → Pc
  -- in `atomic_unlock`, with the word that `btr` has read
  storing : ℕ → ℕ → Pc

-- One step of a processor on the word `w`: the word and its place afterwards.
pub data Move (w : ℕ) : Pc → ℕ → Pc → Type 0 where
  call : (b : ℕ) → Move w idle w (waiting b)
  acquire : {b w' : ℕ} → bts w b ≡ (w', false) → Move w (waiting b) w' (holds b)
  spin : {b w' : ℕ} → bts w b ≡ (w', true) → Move w (waiting b) w' (waiting b)
  read : {b : ℕ} → Move w (holds b) w (storing b w)
  store : {b v w' : ℕ} → w' ≡ (btr v b).0 → Move w (storing b v) w' idle

pub record System : Type 0 where
  pub word : ℕ
  pub pc : ℕ → Pc

-- Any processor takes the next step; `Allowed` says which bits are ever locked.
pub data Step (Allowed : ℕ → Type 0) (s : System) : System → Type 0 where
  pick :
      (i : ℕ) {w' : ℕ} {p' : Pc}
      → Move s.word (s.pc i) w' p'
      → ((b : ℕ) → p' ≡ waiting b → Allowed b)
      → Step Allowed s (record { word = w'; pc = update s.pc i p' })

pub data Reach (Allowed : ℕ → Type 0) (s : System) : System → Type 0 where
  here : Reach Allowed s s
  next : {t u : System} → Reach Allowed s t → Step Allowed t u → Reach Allowed s u

-- A processor that has the lock, up to the store that gives it back.
abbrev pub owner : Pc → Bool
owner idle = false
owner (waiting b) = false
owner (holds b) = true
owner (storing b v) = true

-- No processor is in either function.
abbrev pub quiet : ℕ → System
quiet w = record { word = w; pc = λ i. idle }
