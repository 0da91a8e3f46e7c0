-- ===== src/Ioapic/Entry.antt =====
-- A redirection entry that is written is read back.
use visual_os.Base.{
  ℕ, ◌+◌, ◌*◌, ◌/◌, ◌%◌, ◌^◌, ◌<◌, ◌≡◌, refl, ◌==◌, if◌then◌else◌, bit_or, arith, inl, inr,
  Bool-cases,
}
use visual_os.Base.Bits.{bit_or_split, bit_or-zero, zero-bit_or}
use visual_os.Ioapic.{
  Device, IoapicRedirectionEntry, entry_register, entry_low, entry_high, entry_fields,
  ioapic_set_redirection_entry, ioapic_get_redirection_entry,
}

-- The fields are as wide as their declarations say.
pub record IsEntry (e : IoapicRedirectionEntry) : Type 0 where
  pub vector : e.vector < 256
  pub delivery_mode : e.delivery_mode < 8
  pub destination_mode : e.destination_mode < 2
  pub delivery_status : e.delivery_status < 2
  pub pin_polarity : e.pin_polarity < 2
  pub remote_irr : e.remote_irr < 2
  pub trigger_mode : e.trigger_mode < 2
  pub mask : e.mask < 2
  pub destination : e.destination < 256

-- A field is put above the bits that are there.
or_field : (k a x : ℕ) → a < 2 ^ k → bit_or a (x * 2 ^ k) ≡ a + x * 2 ^ k
or_field k a x h = ground (arith, bit_or_split k 0 x a 0, bit_or-zero a, zero-bit_or x)

low-sum :
    (e : IoapicRedirectionEntry)
    → IsEntry e
    → entry_low e
      ≡ e.vector
        + e.delivery_mode * 2 ^ 8
        + e.destination_mode * 2 ^ 11
        + e.delivery_status * 2 ^ 12
        + e.pin_polarity * 2 ^ 13
        + e.remote_irr * 2 ^ 14
        + e.trigger_mode * 2 ^ 15
        + e.mask * 2 ^ 16
unfolding entry_low
low-sum e w =
    rw
      (
        or_field 8 e.vector e.delivery_mode (omega (arith, w.vector)),
        or_field 11 (e.vector + e.delivery_mode * 2 ^ 8) e.destination_mode
            (omega (arith, w.vector, w.delivery_mode)),
        or_field 12 (e.vector + e.delivery_mode * 2 ^ 8 + e.destination_mode * 2 ^ 11)
            e.delivery_status (omega (arith, w.vector, w.delivery_mode, w.destination_mode)),
        or_field 13
            (e.vector
              + e.delivery_mode * 2 ^ 8
              + e.destination_mode * 2 ^ 11
              + e.delivery_status * 2 ^ 12)
            e.pin_polarity
            (omega (arith, w.vector, w.delivery_mode, w.destination_mode, w.delivery_status)),
        or_field 14
            (e.vector
              + e.delivery_mode * 2 ^ 8
              + e.destination_mode * 2 ^ 11
              + e.delivery_status * 2 ^ 12
              + e.pin_polarity * 2 ^ 13)
            e.remote_irr
            (omega (
              arith, w.vector, w.delivery_mode, w.destination_mode, w.delivery_status,
              w.pin_polarity,
            )),
        or_field 15
            (e.vector
              + e.delivery_mode * 2 ^ 8
              + e.destination_mode * 2 ^ 11
              + e.delivery_status * 2 ^ 12
              + e.pin_polarity * 2 ^ 13
              + e.remote_irr * 2 ^ 14)
            e.trigger_mode
            (omega (
              arith, w.vector, w.delivery_mode, w.destination_mode, w.delivery_status,
              w.pin_polarity, w.remote_irr,
            )),
        or_field 16
            (e.vector
              + e.delivery_mode * 2 ^ 8
              + e.destination_mode * 2 ^ 11
              + e.delivery_status * 2 ^ 12
              + e.pin_polarity * 2 ^ 13
              + e.remote_irr * 2 ^ 14
              + e.trigger_mode * 2 ^ 15)
            e.mask
            (omega (
              arith, w.vector, w.delivery_mode, w.destination_mode, w.delivery_status,
              w.pin_polarity, w.remote_irr, w.trigger_mode,
            )),
      )
      refl

fields-registers :
    (e : IoapicRedirectionEntry) → IsEntry e → entry_fields (entry_low e) (entry_high e) ≡ e
unfolding entry_fields
fields-registers e w =
    let sum = low-sum e w in
    let field_vector : entry_low e % 2 ^ 8 ≡ e.vector = omega (
      arith, sum, w.vector, w.delivery_mode, w.destination_mode, w.delivery_status, w.pin_polarity,
      w.remote_irr, w.trigger_mode, w.mask,
    ) in
    let field_delivery_mode : entry_low e / 2 ^ 8 % 2 ^ 3 ≡ e.delivery_mode = omega (
      arith, sum, w.vector, w.delivery_mode, w.destination_mode, w.delivery_status, w.pin_polarity,
      w.remote_irr, w.trigger_mode, w.mask,
    ) in
    let field_destination_mode : entry_low e / 2 ^ 11 % 2 ≡ e.destination_mode = omega (
      arith, sum, w.vector, w.delivery_mode, w.destination_mode, w.delivery_status, w.pin_polarity,
      w.remote_irr, w.trigger_mode, w.mask,
    ) in
    let field_delivery_status : entry_low e / 2 ^ 12 % 2 ≡ e.delivery_status = omega (
      arith, sum, w.vector, w.delivery_mode, w.destination_mode, w.delivery_status, w.pin_polarity,
      w.remote_irr, w.trigger_mode, w.mask,
    ) in
    let field_pin_polarity : entry_low e / 2 ^ 13 % 2 ≡ e.pin_polarity = omega (
      arith, sum, w.vector, w.delivery_mode, w.destination_mode, w.delivery_status, w.pin_polarity,
      w.remote_irr, w.trigger_mode, w.mask,
    ) in
    let field_remote_irr : entry_low e / 2 ^ 14 % 2 ≡ e.remote_irr = omega (
      arith, sum, w.vector, w.delivery_mode, w.destination_mode, w.delivery_status, w.pin_polarity,
      w.remote_irr, w.trigger_mode, w.mask,
    ) in
    let field_trigger_mode : entry_low e / 2 ^ 15 % 2 ≡ e.trigger_mode = omega (
      arith, sum, w.vector, w.delivery_mode, w.destination_mode, w.delivery_status, w.pin_polarity,
      w.remote_irr, w.trigger_mode, w.mask,
    ) in
    let field_mask : entry_low e / 2 ^ 16 % 2 ≡ e.mask = omega (
      arith, sum, w.vector, w.delivery_mode, w.destination_mode, w.delivery_status, w.pin_polarity,
      w.remote_irr, w.trigger_mode, w.mask,
    ) in
    let field_destination : entry_high e / 2 ^ 24 % 2 ^ 8 ≡ e.destination =
      unfold entry_high in omega (arith, w.destination) in
    λ i. record {
      vector = field_vector i;
      delivery_mode = field_delivery_mode i;
      destination_mode = field_destination_mode i;
      delivery_status = field_delivery_status i;
      pin_polarity = field_pin_polarity i;
      remote_irr = field_remote_irr i;
      trigger_mode = field_trigger_mode i;
      mask = field_mask i;
      destination = field_destination i;
    }

low-register :
    (d : Device) (i j : ℕ) (e : IoapicRedirectionEntry)
    → i < 120
    → j < 120
    → (ioapic_set_redirection_entry d i e).registers (entry_register j 0)
      ≡ (if i == j then entry_low e else d.registers (entry_register j 0))
unfolding ioapic_set_redirection_entry
low-register d i j e hi hj = ground arith

high-register :
    (d : Device) (i j : ℕ) (e : IoapicRedirectionEntry)
    → i < 120
    → j < 120
    → (ioapic_set_redirection_entry d i e).registers (entry_register j 1)
      ≡ (if i == j then entry_high e else d.registers (entry_register j 1))
unfolding ioapic_set_redirection_entry
high-register d i j e hi hj = ground arith

read-registers :
    (d : Device) (j : ℕ)
    → (ioapic_get_redirection_entry d j).0
      ≡ entry_fields (d.registers (entry_register j 0)) (d.registers (entry_register j 1))
unfolding ioapic_get_redirection_entry
read-registers d j = refl

-- For two of the 120 entries whose registers an offset of 8 bits reaches, and fields of their declared
-- widths: reading an entry after one was written gives what was written, if it is the same entry, and
-- what it would have given before, if it is another.
pub get-set_redirection_entry :
    (d : Device) (i j : ℕ) (e : IoapicRedirectionEntry)
    → IsEntry e
    → i < 120
    → j < 120
    → (ioapic_get_redirection_entry (ioapic_set_redirection_entry d i e) j).0
      ≡ (if i == j then e else (ioapic_get_redirection_entry d j).0)
get-set_redirection_entry d i j e w hi hj = elim (Bool-cases (i == j)) [
  | inl same ↦
      rw
        (
          read-registers (ioapic_set_redirection_entry d i e) j,
          low-register d i j e hi hj,
          high-register d i j e hi hj,
          same,
        )
        (fields-registers e w)
  | inr other ↦
      rw
        (
          read-registers,
          low-register d i j e hi hj,
          high-register d i j e hi hj,
          other,
          read-registers,
        )
        refl
]
