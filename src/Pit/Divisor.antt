-- ===== src/Pit/Divisor.antt =====
-- The divisor that the interval timer gets.
use native.Mathlib.Decide.{ℕ_discrete, dec_lt}
use native.Mathlib.Nat.{div-add-mod, mod-lt, mul-le-mul_right}
use visual_os.Base.{
  ℕ, ◌+◌, ◌*◌, ◌/◌, ◌%◌, ◌^◌, ◌<◌, ◌≤◌, ◌≡◌, ◌⊎◌, inl, inr, refl, true, false, [], ◌∷◌, ◌++◌, ltb,
  arith, bit_and,
}
use visual_os.Base.Bits.{bit_and_split, bit_and-ones, bit_and-zero}
use visual_os.Pit.{
  Pit, pit_max_divisor, pit_port, pit_base_frequency, pit_set_divisor, pit_set_frequency,
}

-- The timer was sent a divisor, the low byte first.
pub record Sent (s t : Pit) (divisor : ℕ) : Type 0 where
  pub low : ℕ
  pub high : ℕ
  pub set : t.divisor ≡ divisor
  pub bytes : low + high * 2 ^ 8 ≡ divisor
  pub outputs : t.outputs ≡ (s.outputs ++ ((pit_port, low) ∷ [])) ++ ((pit_port, high) ∷ [])
  pub ticks : t.ticks_since_boot ≡ s.ticks_since_boot

high_byte : (d : ℕ) → bit_and d 0xff00 ≡ d / 2 ^ 8 % 2 ^ 8 * 2 ^ 8
high_byte d = ground (
  arith,
  bit_and_split 8 (d / 2 ^ 8) 0xff (d % 2 ^ 8) 0,
  bit_and-ones 8 (d / 2 ^ 8),
  bit_and-zero (d % 2 ^ 8),
)

-- `pit_set_divisor` takes the 16 low bits of a divisor, whatever its size, and sends them to the timer.
pub pit_set_divisor-Sent : (d : ℕ) (s : Pit) → Sent s (pit_set_divisor d s) (d % 2 ^ 16)
unfolding pit_set_divisor
pit_set_divisor-Sent d s =
    let never : ltb pit_max_divisor (d % 2 ^ 16) ≡ false = ground arith in
    rw never (record {
      low = bit_and (d % 2 ^ 16) 0x00ff % 2 ^ 8;
      high = bit_and (d % 2 ^ 16) 0xff00 / 2 ^ 8 % 2 ^ 8;
      set = refl;
      bytes = omega (arith, bit_and-ones 8 (d % 2 ^ 16), high_byte (d % 2 ^ 16));
      outputs = refl;
      ticks = refl;
    })

-- A frequency up to the timer's own is set by the 16 low bits of its divisor, which are sent to the
-- timer. The divisor is not 0, and from 19 on its 16 low bits are all of it.
pub pit_set_frequency-Sent :
    (f : ℕ) (s : Pit)
    → 0 < f
    → f ≤ pit_base_frequency
    → Sent s (pit_set_frequency f s) (pit_base_frequency / f % 2 ^ 16)
      × (0 < pit_base_frequency / f)
      × ((ltb f 19 ≡ true) ⊎ (pit_base_frequency / f % 2 ^ 16 ≡ pit_base_frequency / f))
unfolding pit_set_frequency
pit_set_frequency-Sent f s some_f le =
    let q : ℕ = pit_base_frequency / f in
    let parts : f * q + pit_base_frequency % f ≡ pit_base_frequency =
      div-add-mod pit_base_frequency f in
    let rest : pit_base_frequency % f < f = mod-lt pit_base_frequency some_f in
    (
      pit_set_divisor-Sent q s,
      elim (ℕ_discrete q 0) [
        | yes e ↦
            let none_in : f * q ≡ 0 = rw e (omega arith) in
            absurd (omega (arith, none_in, parts, rest))
        | no ne ↦ omega arith
      ],
      elim (dec_lt f 19) [
        | yes slow ↦ inl (ground arith)
        | no fast ↦
            let at_most : 19 * q ≤ f * q = mul-le-mul_right q (omega arith) in
            inr (omega (arith, at_most, parts))
      ],
    )
