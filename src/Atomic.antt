-- ===== src/Atomic.antt =====
-- The atomic operations of src/kernel/x86_64/atomic.asm on a 64-bit word. In the assembly `bts` and
-- `btr` put the old bit into the carry flag, and `CF_RESULT` returns 1 exactly if it is 0.
pub mod Laws
pub mod Spinlock
pub mod Race
mod Tests
use visual_os.Base.{
  ℕ, ◌+◌, ◌-◌, ◌/◌, ◌%◌, ◌^◌, Bool, not, Option, none, some, ◌==◌, if◌then◌else◌, add64,
}

-- `bt`: the bit at position `bit`.
unfoldable pub bt : ℕ → ℕ → Bool
bt mutex bit = mutex / 2 ^ bit % 2 == 1

-- `bts`: the word with the bit on, and the carry flag.
unfoldable pub bts : ℕ → ℕ → ℕ × Bool
unfolding bt
bts mutex bit = (if bt mutex bit then mutex else mutex + 2 ^ bit, bt mutex bit)

-- `btr`: the word with the bit off, and the carry flag.
unfoldable pub btr : ℕ → ℕ → ℕ × Bool
unfolding bt
btr mutex bit = (if bt mutex bit then mutex - 2 ^ bit else mutex, bt mutex bit)

abbrev pub cf_result : Bool → Bool
cf_result carry = not carry

-- The new word, and what the function returns.
unfoldable pub atomic_lock : ℕ → ℕ → ℕ × Bool
unfolding bts
atomic_lock mutex bit = let (word, carry) = bts mutex bit in (word, cf_result carry)

unfoldable pub atomic_unlock : ℕ → ℕ → ℕ × Bool
unfolding btr
atomic_unlock mutex bit = let (word, carry) = btr mutex bit in (word, cf_result carry)

-- With no other processor at work: `none` if `.spin` is never left.
unfoldable pub atomic_spinlock : ℕ → ℕ → Option ℕ
unfolding bts
atomic_spinlock mutex bit = let (word, carry) = bts mutex bit in if carry then none else some word

-- `xadd`: the new sum, and the old value.
unfoldable pub atomic_accumulate : ℕ → ℕ → ℕ × ℕ
atomic_accumulate accumulator amount = (add64 accumulator amount, accumulator)
