-- ===== src/Ioapic.antt =====
-- src/kernel/x86_64/apic/ioapic.c and ioapic.h: the redirection entries of an I/O interrupt
-- controller. The controller shows its registers of 32 bits through a window: the select register
-- chooses which of them the window reads and writes.
pub mod Entry
pub mod Setup
pub mod FromIsrs
mod Tests
use visual_os.Base.{ℕ, ◌+◌, ◌*◌, ◌/◌, ◌%◌, ◌^◌, bit_or, update}

-- The select register and the registers behind the window.
pub record Device : Type 0 where
  pub select : ℕ
  pub registers : ℕ → ℕ

-- The register that was read, and the device.
abbrev pub ioapic_get_register : Device → (reg_offset : ℕ) → ℕ × Device
ioapic_get_register device reg_offset =
    (device.registers reg_offset, record device { select = reg_offset })

abbrev pub ioapic_set_register : Device → (reg_offset value : ℕ) → Device
ioapic_set_register device reg_offset value = record {
  select = reg_offset;
  registers = update device.registers reg_offset value;
}

-- The bit fields have the widths 8, 3, 1, 1, 1, 1, 1, 1 and 8.
pub record IoapicRedirectionEntry : Type 0 where
  pub vector : ℕ
  pub delivery_mode : ℕ
  pub destination_mode : ℕ
  pub delivery_status : ℕ
  pub pin_polarity : ℕ
  pub remote_irr : ℕ
  pub trigger_mode : ℕ
  pub mask : ℕ
  pub destination : ℕ

abbrev pub ioapic_reg_offset_redirection_table : ℕ
ioapic_reg_offset_redirection_table = 0x10

-- `IOAPIC_REG_OFFSET_REDIRECTION_TABLE + 2 * index + part`, as the `uint8_t` that is passed.
abbrev pub entry_register : ℕ → ℕ → ℕ
entry_register index part = (ioapic_reg_offset_redirection_table + 2 * index + part) % 2 ^ 8

unfoldable pub entry_low : IoapicRedirectionEntry → ℕ
entry_low entry =
    bit_or
      (bit_or
        (bit_or
          (bit_or
            (bit_or
              (bit_or (bit_or entry.vector (entry.delivery_mode * 2 ^ 8))
                (entry.destination_mode * 2 ^ 11))
              (entry.delivery_status * 2 ^ 12))
            (entry.pin_polarity * 2 ^ 13))
          (entry.remote_irr * 2 ^ 14))
        (entry.trigger_mode * 2 ^ 15))
      (entry.mask * 2 ^ 16)

-- `destination << 24`, cut to 32 bits.
unfoldable pub entry_high : IoapicRedirectionEntry → ℕ
entry_high entry = entry.destination * 2 ^ 24 % 2 ^ 32

unfoldable pub ioapic_set_redirection_entry : Device → ℕ → IoapicRedirectionEntry → Device
ioapic_set_redirection_entry device index entry =
    ioapic_set_register (ioapic_set_register device (entry_register index 0) (entry_low entry))
      (entry_register index 1) (entry_high entry)

-- The fields of the two registers, each cut to its width.
unfoldable pub entry_fields : (low high : ℕ) → IoapicRedirectionEntry
entry_fields low high = record {
  vector = low % 2 ^ 8;
  delivery_mode = low / 2 ^ 8 % 2 ^ 3;
  destination_mode = low / 2 ^ 11 % 2;
  delivery_status = low / 2 ^ 12 % 2;
  pin_polarity = low / 2 ^ 13 % 2;
  remote_irr = low / 2 ^ 14 % 2;
  trigger_mode = low / 2 ^ 15 % 2;
  mask = low / 2 ^ 16 % 2;
  destination = high / 2 ^ 24 % 2 ^ 8;
}

unfoldable pub ioapic_get_redirection_entry : Device → ℕ → IoapicRedirectionEntry × Device
ioapic_get_redirection_entry device index =
    let (low, device') = ioapic_get_register device (entry_register index 0) in
    let (high, device'') = ioapic_get_register device' (entry_register index 1) in
    (entry_fields low high, device'')
