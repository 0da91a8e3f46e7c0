-- ===== src/Base/Word.antt =====
-- `uint64_t` and `size_t` arithmetic, and memory as a function of the address.
use Prim.Native.Nat.{ℕ, ◌+◌, ◌-◌, ◌*◌, ◌%◌, ◌^◌}
use visual_os.Base.Tests.{◌==◌, ltb, if◌then◌else◌}

abbrev pub u64_mod : ℕ
u64_mod = 2 ^ 64

abbrev pub add64 : ℕ → ℕ → ℕ
add64 a b = (a + b) % u64_mod

abbrev pub sub64 : ℕ → ℕ → ℕ
sub64 a b = (a + u64_mod - b) % u64_mod

abbrev pub mul64 : ℕ → ℕ → ℕ
mul64 a b = (a * b) % u64_mod

-- A write to one address of a memory.
abbrev pub update {ℓ} : {A : Type ℓ} → (ℕ → A) → ℕ → A → ℕ → A
update f i a j = if i == j then a else f j

-- An `int` that is a number modulo 2 ^ 32, as it is added to a pointer or to a `size_t`: its sign bit is
-- repeated. A product that overflows is undefined in C; this is what the machine's multiplication gives.
abbrev pub sign_extend : ℕ → ℕ
sign_extend n = let w = n % 2 ^ 32 in if ltb w (2 ^ 31) then w else w + (2 ^ 64 - 2 ^ 32)
