-- ===== src/Symbols/Unwind.antt =====
-- src/kernel/symbols/unwind.c and unwind.h: the walk over the saved frame pointers.
use visual_os.Base.{ℕ, zero, suc, ◌+◌, true, false, List, [], ◌∷◌, ◌==◌}

abbrev pub unwind_max_frames : ℕ
unwind_max_frames = 16

-- `struct StackFrame` at each address.
pub record StackFrames : Type 0 where
  pub rbp : ℕ → ℕ
  pub rip : ℕ → ℕ

-- The calls of the callback, in their order, with the rounds that are left.
unfoldable pub unwind_loop : (rounds i stack_frame : ℕ) → StackFrames → List (ℕ × ℕ)
unwind_loop zero i stack_frame memory = []
unwind_loop (suc rounds) i stack_frame memory = elim (memory.rbp stack_frame == 0) [
  | true ↦ []
  | false ↦ (i, memory.rip stack_frame) ∷ unwind_loop rounds (i + 1) (memory.rbp stack_frame) memory
]

unfoldable pub unwind : (rbp : ℕ) → StackFrames → List (ℕ × ℕ)
unfolding unwind_loop
unwind = unwind_loop unwind_max_frames 0
