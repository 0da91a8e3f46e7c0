-- ===== src/Base/Libc.antt =====
-- What the kernel uses of the C library that is linked in, by its documented behaviour.
use Prim.Native.Nat.{ℕ, ◌%◌, ◌/◌}
use mathlib.Core.Path.{◌≡◌, refl}
use visual_os.Base.Tests.{ltb, if◌then◌else◌}

-- `memset(ptr, c, n)` on the memory from `ptr` on: it fills the first `n` bytes and no other. The
-- second pair is `memset(ptr, 0, n)` for a pointer to 64-bit words.
pub record Libc : Type 0 where
  pub memset : (ℕ → ℕ) → ℕ → ℕ → ℕ → ℕ
  pub memset_lem :
      (memory : ℕ → ℕ) (c n i : ℕ) → memset memory c n i ≡ (if ltb i n then c % 256 else memory i)
  pub memset_words : (ℕ → ℕ) → ℕ → ℕ → ℕ
  pub memset_words_lem :
      (words : ℕ → ℕ) (n i : ℕ) → memset_words words n i ≡ (if ltb i (n / 8) then 0 else words i)

abbrev pub model_libc : Libc
model_libc = record {
  memset = λ memory c n i. if ltb i n then c % 256 else memory i;
  memset_lem = λ memory c n i. refl;
  memset_words = λ words n i. if ltb i (n / 8) then 0 else words i;
  memset_words_lem = λ words n i. refl;
}
