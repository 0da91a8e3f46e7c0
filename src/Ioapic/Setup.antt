-- ===== src/Ioapic/Setup.antt =====
-- src/kernel/x86_64/apic/ioapic.c: which entries the kernel writes, from the MADT's records and from
-- the handlers of src/kernel/x86_64/isr.c. A handler is its address, and 0 where there is none.
use visual_os.Base.{
  ℕ, zero, suc, ◌+◌, ◌-◌, ◌/◌, ◌%◌, ◌^◌, Bool, true, false, not, bit_and, ◌==◌, if◌then◌else◌,
  sub64, update, for_range,
}
use visual_os.Paging.{set_bit}
use visual_os.Ioapic.{
  Device, IoapicRedirectionEntry, ioapic_get_register, ioapic_set_register,
  ioapic_set_redirection_entry, entry_register,
}

pub record MadtInterruptSourceOverride : Type 0 where
  pub bus : ℕ
  pub source : ℕ
  pub global_interrupt : ℕ
  pub flags : ℕ

abbrev pub isr_irq_start : ℕ
isr_irq_start = 32

abbrev pub isr_max : ℕ
isr_max = 256

abbrev pub reg_offset_version : ℕ
reg_offset_version = 1

abbrev pub delivery_mode_fixed : ℕ
delivery_mode_fixed = 0b000

abbrev pub delivery_mode_low_priority : ℕ
delivery_mode_low_priority = 0b001

abbrev pub bits_low_mask : ℕ
bits_low_mask = 16

unfoldable pub isr_register_handler : (num handler : ℕ) → (ℕ → ℕ) → ℕ → ℕ
isr_register_handler num handler handlers = update handlers num handler

unfoldable pub isr_exists : (ℕ → ℕ) → ℕ → Bool
isr_exists handlers num = not (handlers num == 0)

-- The addresses of the handlers.
pub record Handlers : Type 0 where
  pub double_fault_handler : ℕ
  pub general_protection_fault_handler : ℕ
  pub paging_fault_handler : ℕ
  pub pit_handler : ℕ
  pub keyboard_handler : ℕ
  pub spurious_interrupt_handler : ℕ
  pub timer_handler : ℕ

unfoldable pub isr_init : Handlers → (ℕ → ℕ) → ℕ → ℕ
unfolding isr_register_handler
isr_init h handlers = isr_register_handler 48 h.timer_handler (
    isr_register_handler 39 h.spurious_interrupt_handler (
      isr_register_handler 33 h.keyboard_handler (
        isr_register_handler 32 h.pit_handler (
          isr_register_handler 14 h.paging_fault_handler (
            isr_register_handler 13 h.general_protection_fault_handler
              (isr_register_handler 8 h.double_fault_handler handlers))))))

-- The entry of an override; the vector is cut to its 8 bits.
unfoldable pub iso_entry : MadtInterruptSourceOverride → IoapicRedirectionEntry
iso_entry iso = record {
  vector = (iso.source + isr_irq_start) % 2 ^ 8;
  delivery_mode = delivery_mode_fixed;
  destination_mode = 0;
  delivery_status = 0;
  pin_polarity = if bit_and iso.flags 0x03 == 0x03 then 1 else 0;
  remote_irr = 0;
  trigger_mode = if bit_and iso.flags 0x0c == 0x0c then 1 else 0;
  mask = 0;
  destination = 0;
}

-- The new device, and `max_interrupts`.
unfoldable pub ioapic_init :
    (isos : ℕ → MadtInterruptSourceOverride) → (isos_num : ℕ) → Device → Device × ℕ
unfolding iso_entry
ioapic_init isos isos_num device =
    let (version, device') = ioapic_get_register device reg_offset_version in
    (
      for_range
          (λ j d. ioapic_set_redirection_entry d (isos j).global_interrupt (iso_entry (isos j)))
          isos_num 0 device',
      (bit_and (version / 2 ^ 16) 0xff + 1) % 2 ^ 8,
    )

-- The search for an override of an ISR, from `j` on.
unfoldable pub overridden :
    (rounds j : ℕ) → (ℕ → MadtInterruptSourceOverride) → (isr_num : ℕ) → Bool
overridden zero j isos isr_num = false
overridden (suc rounds) j isos isr_num = elim ((isos j).source + isr_irq_start == isr_num) [
  | true ↦ true
  | false ↦ overridden rounds (j + 1) isos isr_num
]

unfoldable pub isr_entry : ℕ → IoapicRedirectionEntry
isr_entry isr_num = record {
  vector = isr_num % 2 ^ 8;
  delivery_mode = delivery_mode_low_priority;
  destination_mode = 0;
  delivery_status = 0;
  pin_polarity = 0;
  remote_irr = 0;
  trigger_mode = 0;
  mask = 0;
  destination = 0;
}

module _ (isos : ℕ → MadtInterruptSourceOverride) (isos_num : ℕ) where
  -- The body of the loop over the ISRs.
  unfoldable pub set_from_isr : (handlers : ℕ → ℕ) → (isr_num : ℕ) → Device → Device
  unfolding isr_exists overridden isr_entry
  set_from_isr handlers isr_num device =
      if isr_exists handlers isr_num
      then if overridden isos_num 0 isos isr_num
        then device
        else ioapic_set_redirection_entry device (sub64 isr_num isr_irq_start) (isr_entry isr_num)
      else device

  unfoldable pub ioapic_set_from_isrs : (handlers : ℕ → ℕ) → Device → Device
  unfolding set_from_isr
  ioapic_set_from_isrs handlers =
      for_range (set_from_isr handlers) (isr_max - isr_irq_start) isr_irq_start

-- `_ioapic_entry_set_mask`: only the bit of the mask changes.
unfoldable pub set_mask : Device → (index : ℕ) → (mask : Bool) → Device
set_mask device index mask =
    let (low, device') = ioapic_get_register device (entry_register index 0) in
    ioapic_set_register device' (entry_register index 0) (set_bit low bits_low_mask mask)

-- The entry of a source: that of its first override, from `i` on, or the one at the source.
unfoldable pub find_source : (rounds i : ℕ) → (ℕ → MadtInterruptSourceOverride) → (source : ℕ) → ℕ
find_source zero i isos source = source
find_source (suc rounds) i isos source = elim ((isos i).source == source) [
  | true ↦ (isos i).global_interrupt
  | false ↦ find_source rounds (i + 1) isos source
]

unfoldable pub ioapic_entry_set_mask :
    (isos : ℕ → MadtInterruptSourceOverride)
    → (isos_num isr_num : ℕ) → (mask : Bool) → Device
    → Device
unfolding set_mask find_source
ioapic_entry_set_mask isos isos_num isr_num mask device =
    set_mask device (find_source isos_num 0 isos (sub64 isr_num isr_irq_start)) mask
