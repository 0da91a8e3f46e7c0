-- ===== src/Descriptors/Gates.antt =====
-- The interrupt gates as the processor reads them.
use visual_os.Base.{
  ℕ, ◌+◌, ◌*◌, ◌/◌, ◌%◌, ◌^◌, ◌<◌, ◌≡◌, ◌⊎◌, Bool, true, false, ◌||◌, ◌==◌, List, [], ◌∷◌, arith,
  bit_and, u64_mod,
}
use visual_os.Base.Bits.{bit_and_split, bit_and-ones, bit_and-zero}
use visual_os.Descriptors.{
  IdtEntry, isr_gate, internal_isrs, irqs, idt_type_gate_interrupt, idt_type_gate_trap, idt_ist_isr,
  idt_ist_irq, idt_ist_timer,
}

-- An interrupt gate of the processor: bit 7 of the attributes says that it is present, and the offset
-- has three parts.
abbrev pub present : IdtEntry → Bool
present entry = entry.type_attr / 2 ^ 7 % 2 == 1

abbrev pub offset : IdtEntry → ℕ
offset entry = entry.offset_low + entry.offset_mid * 2 ^ 16 + entry.offset_high * 2 ^ 32

abbrev pub gate_type : IdtEntry → ℕ
gate_type entry = entry.type_attr % 2 ^ 4

pub isr_gate-offset : (p gate ist : ℕ) → p < u64_mod → offset (isr_gate p gate ist) ≡ p
unfolding isr_gate
isr_gate-offset p gate ist l =
    let low : bit_and p 0xffff ≡ p % 2 ^ 16 = bit_and-ones 16 p in
    let middle : bit_and p 0xffff0000 ≡ p / 2 ^ 16 % 2 ^ 16 * 2 ^ 16 = ground (
      arith,
      bit_and_split 16 (p / 2 ^ 16) 0xffff (p % 2 ^ 16) 0,
      bit_and-ones 16 (p / 2 ^ 16),
      bit_and-zero (p % 2 ^ 16),
    ) in
    let high : bit_and p 0xffffffff00000000 ≡ p / 2 ^ 32 % 2 ^ 32 * 2 ^ 32 = ground (
      arith,
      bit_and_split 32 (p / 2 ^ 32) 0xffffffff (p % 2 ^ 32) 0,
      bit_and-ones 32 (p / 2 ^ 32),
      bit_and-zero (p % 2 ^ 32),
    ) in
    omega (arith, low, middle, high)

abbrev pub among : ℕ → List ℕ → Bool
among n [] = false
among n (m ∷ rest) = (n == m) || among n rest

-- The entry is a gate to a handler.
pub record IsGate (entry : IdtEntry) (handler gate stack : ℕ) : Type 0 where
  pub to_handler : offset entry ≡ handler
  pub is_present : present entry ≡ true
  pub has_type : gate_type entry ≡ gate
  pub on_stack : entry.ist ≡ stack
  pub kernel_code : entry.selector ≡ 8

-- The entry of a number: a trap gate, an interrupt gate on one of two stacks, or not present.
abbrev pub EntryOf : (isrs : ℕ → ℕ) → (n : ℕ) → IdtEntry → Type 0
EntryOf isrs n entry =
    ((among n internal_isrs ≡ true) × IsGate entry (isrs n) idt_type_gate_trap idt_ist_isr)
    ⊎ ((among n irqs ≡ true) × IsGate entry (isrs n) idt_type_gate_interrupt idt_ist_irq)
    ⊎ ((n ≡ 48) × IsGate entry (isrs n) idt_type_gate_interrupt idt_ist_timer)
    ⊎ ((among n internal_isrs ≡ false)
        × (among n irqs ≡ false)
        × ((n == 48) ≡ false)
        × (present entry ≡ false))

apart : (n : ℕ) → among n internal_isrs ≡ true → (among n irqs ≡ false) × ((n == 48) ≡ false)
apart n h = (ground (arith, h), ground (arith, h))

apart_irq : (n : ℕ) → among n irqs ≡ true → (n == 48) ≡ false
apart_irq n h = ground (arith, h)
