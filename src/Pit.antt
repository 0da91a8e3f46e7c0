-- ===== src/Pit.antt =====
-- src/kernel/x86_64/pit.c and pit.h: the interval timer. What was put out on a port, by `outb`, is a
-- list of ports and bytes, the last one at the end; the checkpoint of `io_wait` is left out.
pub mod Divisor
mod Tests
use visual_os.Base.{
  ℕ, ◌+◌, ◌*◌, ◌/◌, ◌%◌, ◌^◌, List, [], ◌∷◌, ◌++◌, bit_and, ltb, if◌then◌else◌, add64,
}

pub record Pit : Type 0 where
  pub ticks_since_boot : ℕ
  pub divisor : ℕ
  pub outputs : List (ℕ × ℕ)

abbrev pub pit_base_frequency : ℕ
pit_base_frequency = 1193182

abbrev pub pit_max_divisor : ℕ
pit_max_divisor = 65535

abbrev pub pit_port : ℕ
pit_port = 0x40

abbrev pub outb : (port value : ℕ) → Pit → Pit
outb port value s = record s { outputs = s.outputs ++ ((port, value) ∷ []) }

-- `s_divisor` has 16 bits.
unfoldable pub pit_set_divisor : ℕ → Pit → Pit
pit_set_divisor divisor s =
    let s1 = record s { divisor = divisor % 2 ^ 16 } in
    let s2 =
      if ltb pit_max_divisor s1.divisor then record s1 { divisor = pit_max_divisor } else s1 in
    outb pit_port (bit_and s2.divisor 0xff00 / 2 ^ 8 % 2 ^ 8)
      (outb pit_port (bit_and s2.divisor 0x00ff % 2 ^ 8) s2)

unfoldable pub pit_init : Pit → Pit
unfolding pit_set_divisor
pit_init = pit_set_divisor pit_max_divisor

-- For a divisor that is not 0.
unfoldable pub pit_get_frequency : Pit → ℕ
pit_get_frequency s = pit_base_frequency / s.divisor

-- For a frequency that is not 0.
unfoldable pub pit_set_frequency : ℕ → Pit → Pit
unfolding pit_set_divisor
pit_set_frequency frequency = pit_set_divisor (pit_base_frequency / frequency)

unfoldable pub pit_on_interrupt : Pit → Pit
pit_on_interrupt s = record s { ticks_since_boot = add64 s.ticks_since_boot s.divisor }

unfoldable pub pit_get_ticks_since_boot : Pit → ℕ
pit_get_ticks_since_boot s = s.ticks_since_boot
