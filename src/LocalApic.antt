-- ===== src/LocalApic.antt =====
-- src/kernel/x86_64/apic/local_apic.c and local_apic.h: the registers of a processor's own interrupt
-- controller, by their offset from its address.
pub mod Bits
pub mod Lints
pub mod Madt
pub mod Informed
pub mod Records
pub mod Setup
mod Tests
use visual_os.Base.{
  ℕ, ◌+◌, ◌*◌, ◌/◌, ◌%◌, ◌^◌, Bool, true, false, not, bit_and, bit_or, ◌==◌, ◌&&◌, if◌then◌else◌,
  update, for_range,
}

-- The bit fields have the widths 8, 3, 1, 1, 1, 1 and 1.
pub record LocalApicInterruptRegister : Type 0 where
  pub vector : ℕ
  pub message_type : ℕ
  pub delivery_status : ℕ
  pub remote_irr : ℕ
  pub trigger_mode : ℕ
  pub mask : ℕ
  pub timer_mode : ℕ

-- A record of the MADT.
pub record MadtNonMaskableInterrupt : Type 0 where
  pub local_apic_id : ℕ
  pub flags : ℕ
  pub lint : ℕ

abbrev pub message_type_nmi : ℕ
message_type_nmi = 0b100

abbrev pub trigger_mode_edge : ℕ
trigger_mode_edge = 0

abbrev pub trigger_mode_level : ℕ
trigger_mode_level = 1

abbrev pub mask_enable : ℕ
mask_enable = 0

abbrev pub mask_disable : ℕ
mask_disable = 1

abbrev pub timer_mode_periodic : ℕ
timer_mode_periodic = 1

abbrev pub vector_spurious : ℕ
vector_spurious = 39

abbrev pub vector_lint : ℕ
vector_lint = 255

abbrev pub vector_timer : ℕ
vector_timer = 48

abbrev pub reg_offset_id : ℕ
reg_offset_id = 0x20

abbrev pub reg_offset_eoi : ℕ
reg_offset_eoi = 0xb0

abbrev pub reg_offset_spurious_int_vector : ℕ
reg_offset_spurious_int_vector = 0xf0

abbrev pub reg_offset_interrupt_command : ℕ
reg_offset_interrupt_command = 0x300

abbrev pub reg_offset_lvt_timer : ℕ
reg_offset_lvt_timer = 0x320

abbrev pub reg_offset_lvt_lint0 : ℕ
reg_offset_lvt_lint0 = 0x350

abbrev pub reg_offset_lvt_lint1 : ℕ
reg_offset_lvt_lint1 = 0x360

abbrev pub reg_offset_initial_count : ℕ
reg_offset_initial_count = 0x380

abbrev pub reg_offset_divide_config : ℕ
reg_offset_divide_config = 0x3e0

abbrev pub timer_ticks_default : ℕ
timer_ticks_default = 0x100000

abbrev pub local_apic_get_register : (ℕ → ℕ) → (reg_offset : ℕ) → ℕ
local_apic_get_register registers reg_offset = registers reg_offset

-- The value is cut to 32 bits.
abbrev pub local_apic_set_register : (reg_offset value : ℕ) → (ℕ → ℕ) → ℕ → ℕ
local_apic_set_register reg_offset value registers = update registers reg_offset (value % 2 ^ 32)

unfoldable pub local_apic_create_register_value : LocalApicInterruptRegister → ℕ
local_apic_create_register_value reg =
    bit_or
      (bit_or
        (bit_or
          (bit_or (bit_or (reg.vector * 2 ^ 0) (reg.message_type * 2 ^ 8))
            (reg.delivery_status * 2 ^ 12))
          (reg.trigger_mode * 2 ^ 15))
        (reg.mask * 2 ^ 16))
      (reg.timer_mode * 2 ^ 17)

unfoldable pub local_apic_get_id : (ℕ → ℕ) → ℕ
local_apic_get_id registers = local_apic_get_register registers reg_offset_id / 2 ^ 24 % 2 ^ 8

unfoldable pub local_apic_ipi_get_command : (ℕ → ℕ) → ℕ × ℕ
local_apic_ipi_get_command registers = (
  local_apic_get_register registers (reg_offset_interrupt_command + 0x00),
  local_apic_get_register registers (reg_offset_interrupt_command + 0x10),
)

unfoldable pub local_apic_ipi_set_command : (command_low command_high : ℕ) → (ℕ → ℕ) → ℕ → ℕ
local_apic_ipi_set_command command_low command_high registers =
    local_apic_set_register (reg_offset_interrupt_command + 0x00) command_low
      (local_apic_set_register (reg_offset_interrupt_command + 0x10) command_high registers)

unfoldable pub local_apic_set_timer_count : ℕ → (ℕ → ℕ) → ℕ → ℕ
local_apic_set_timer_count value = local_apic_set_register reg_offset_initial_count value

unfoldable pub local_apic_eoi : (ℕ → ℕ) → ℕ → ℕ
local_apic_eoi = local_apic_set_register reg_offset_eoi 0

-- The entry that a non-maskable interrupt is given.
unfoldable pub nmi_entry : MadtNonMaskableInterrupt → ℕ
unfolding local_apic_create_register_value
nmi_entry nmi = local_apic_create_register_value (record {
  vector = vector_lint;
  message_type = message_type_nmi;
  delivery_status = 0;
  remote_irr = 0;
  trigger_mode = if bit_and nmi.flags 8 == 0 then trigger_mode_edge else trigger_mode_level;
  mask = mask_disable;
  timer_mode = 0;
})

-- Whether an interrupt is passed over on the processor of an ID.
abbrev pub passed_over : (local_apic_id : ℕ) → MadtNonMaskableInterrupt → Bool
passed_over local_apic_id nmi =
    not (nmi.local_apic_id == 0xff) && not (nmi.local_apic_id == local_apic_id)

-- The body of the loop over the interrupts.
unfoldable pub set_lint : (local_apic_id : ℕ) → MadtNonMaskableInterrupt → (ℕ → ℕ) → ℕ → ℕ
unfolding nmi_entry
set_lint local_apic_id nmi registers =
    if passed_over local_apic_id nmi
    then registers
    else if nmi.lint == 0
    then local_apic_set_register reg_offset_lvt_lint0 (nmi_entry nmi) registers
    else if nmi.lint == 1
    then local_apic_set_register reg_offset_lvt_lint1 (nmi_entry nmi) registers
    else registers

unfoldable pub start_timer : (ℕ → ℕ) → ℕ → ℕ
unfolding local_apic_create_register_value
start_timer registers =
    let counting = local_apic_set_register reg_offset_initial_count timer_ticks_default registers in
    let divide_reg = local_apic_get_register counting reg_offset_divide_config in
    let divided =
      local_apic_set_register reg_offset_divide_config
        (bit_or (bit_and divide_reg 0xfffffff4) 0b1010) counting in
    let timer_reg = local_apic_get_register divided reg_offset_lvt_timer in
    let value = local_apic_create_register_value (record {
      vector = vector_timer;
      message_type = 0;
      delivery_status = 0;
      remote_irr = 0;
      trigger_mode = 0;
      mask = mask_enable;
      timer_mode = timer_mode_periodic;
    }) in
    local_apic_set_register reg_offset_lvt_timer (bit_or value (bit_and timer_reg 0xfffcef00))
      divided

unfoldable pub local_apic_start_lints :
    (nmis : ℕ → MadtNonMaskableInterrupt) → (nmis_num : ℕ) → (ℕ → ℕ) → ℕ → ℕ
unfolding local_apic_get_id set_lint start_timer
local_apic_start_lints nmis nmis_num registers =
    let local_apic_id = local_apic_get_id registers in
    let spurious_reg = local_apic_get_register registers reg_offset_spurious_int_vector in
    let enabled =
      local_apic_set_register reg_offset_spurious_int_vector
        (bit_or (bit_or spurious_reg vector_spurious) 0x100) registers in
    start_timer (for_range (λ i. set_lint local_apic_id (nmis i)) nmis_num 0 enabled)
