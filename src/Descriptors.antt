-- ===== src/Descriptors.antt =====
-- src/kernel/x86_64/idt.c, idt.h, gdt.c and gdt.h: the tables of descriptors. The fields of a packed
-- structure are numbers of their widths, and a structure that `memset` cleared has zeros.
pub mod Gates
pub mod Keyboard
pub mod Segments
mod Tests
use visual_os.Base.{
  ℕ, ◌+◌, ◌-◌, ◌*◌, ◌/◌, ◌%◌, ◌^◌, bit_and, bit_or, List, [], ◌∷◌, ltb, if◌then◌else◌, sub64,
  update,
}

pub record IdtEntry : Type 0 where
  pub offset_low : ℕ
  pub selector : ℕ
  pub ist : ℕ
  pub type_attr : ℕ
  pub offset_mid : ℕ
  pub offset_high : ℕ
  pub zero : ℕ

pub record IdtBlock : Type 0 where
  -- `idt_descriptor`
  pub limit : ℕ
  pub base : ℕ
  pub idt : ℕ → IdtEntry

abbrev pub idt_size : ℕ
idt_size = 256

abbrev pub idt_type_present : ℕ
idt_type_present = 0b1

abbrev pub idt_type_privilege : ℕ
idt_type_privilege = 0b00

abbrev pub idt_ist_isr : ℕ
idt_ist_isr = 1

abbrev pub idt_ist_irq : ℕ
idt_ist_irq = 2

abbrev pub idt_ist_timer : ℕ
idt_ist_timer = 3

abbrev pub idt_type_gate_interrupt : ℕ
idt_type_gate_interrupt = 0b1110

abbrev pub idt_type_gate_trap : ℕ
idt_type_gate_trap = 0b1111

abbrev pub no_entry : IdtEntry
no_entry = record {
  offset_low = 0;
  selector = 0;
  ist = 0;
  type_attr = 0;
  offset_mid = 0;
  offset_high = 0;
  zero = 0;
}

-- `sizeof(struct GDTEntry)` and `sizeof(struct IDTEntry)`
abbrev pub gdt_entry_size : ℕ
gdt_entry_size = 8

abbrev pub idt_entry_size : ℕ
idt_entry_size = 16

-- The entry that `idt_set_isr` writes.
unfoldable pub isr_gate : (isr_ptr gate ist : ℕ) → IdtEntry
isr_gate isr_ptr gate ist = record {
  zero = 0;
  offset_low = bit_and isr_ptr 0x000000000000ffff % 2 ^ 16;
  offset_mid = bit_and isr_ptr 0x00000000ffff0000 / 2 ^ 16 % 2 ^ 16;
  offset_high = bit_and isr_ptr 0xffffffff00000000 / 2 ^ 32 % 2 ^ 32;
  ist = bit_and ist 0x7;
  selector = 1 * gdt_entry_size;
  type_attr = bit_or (bit_or (idt_type_present * 2 ^ 7) (idt_type_privilege * 2 ^ 5)) gate;
}

unfoldable pub idt_set_isr : (index isr_ptr gate ist : ℕ) → (ℕ → IdtEntry) → ℕ → IdtEntry
unfolding isr_gate
idt_set_isr index isr_ptr gate ist idt = update idt index (isr_gate isr_ptr gate ist)

-- `IDT_SET_ISR`, `IDT_SET_IRQ` or `IDT_SET_LVT` for some numbers in a row; `isrs num` is the address of
-- `isr##num`.
unfoldable pub idt_set : (isrs : ℕ → ℕ) → (gate ist : ℕ) → List ℕ → (ℕ → IdtEntry) → ℕ → IdtEntry
unfolding idt_set_isr
idt_set isrs gate ist [] idt = idt
idt_set isrs gate ist (num ∷ rest) idt =
    idt_set isrs gate ist rest (idt_set_isr num (isrs num) gate ist idt)

abbrev pub internal_isrs : List ℕ
internal_isrs = 8 ∷ 10 ∷ 11 ∷ 13 ∷ 14 ∷ []

abbrev pub irqs : List ℕ
irqs = 32 ∷ 33 ∷ 35 ∷ 36 ∷ 37 ∷ 38 ∷ 39 ∷ 40 ∷ 41 ∷ 42 ∷ 43 ∷ 44 ∷ 45 ∷ 46 ∷ 47 ∷ []

abbrev pub custom_lvts : List ℕ
custom_lvts = 48 ∷ []

-- `address` is that of the block's table.
unfoldable pub idt_init : (isrs : ℕ → ℕ) → (address : ℕ) → IdtBlock → IdtBlock
unfolding idt_set
idt_init isrs address block =
    let cleared : ℕ → IdtEntry = λ n. if ltb n idt_size then no_entry else block.idt n in
    record {
      limit = (idt_size * idt_entry_size - 1) % 2 ^ 16;
      base = address;
      idt = idt_set isrs idt_type_gate_interrupt idt_ist_timer custom_lvts (
          idt_set isrs idt_type_gate_interrupt idt_ist_irq irqs
            (idt_set isrs idt_type_gate_trap idt_ist_isr internal_isrs cleared));
    }

-- An entry of the GDT; the descriptor of the TSS covers two of them, the second being the high part.
pub record GdtEntry : Type 0 where
  pub limit_low : ℕ
  pub base_low : ℕ
  pub base_mid : ℕ
  pub access : ℕ
  pub flags : ℕ
  pub base_high : ℕ

pub record TssDescriptor : Type 0 where
  pub limit_low : ℕ
  pub base_low : ℕ
  pub base_mid : ℕ
  pub access : ℕ
  pub flags : ℕ
  pub base_mid2 : ℕ
  pub base_high : ℕ
  pub reserved : ℕ

pub record TssEntry : Type 0 where
  pub rsp : ℕ → ℕ
  pub ist : ℕ → ℕ
  pub io_map_base : ℕ

-- The entry 6 of the GDT, with 7, is `tss_descriptor`.
pub record GdtBlock : Type 0 where
  -- `gdt_descriptor`
  pub size : ℕ
  pub offset : ℕ
  pub gdt : ℕ → GdtEntry
  pub tss_descriptor : TssDescriptor
  pub tss : TssEntry

abbrev pub gdt_num : ℕ
gdt_num = 8

abbrev pub gdt_access_writable : ℕ
gdt_access_writable = 0b00000010

abbrev pub gdt_access_type : ℕ
gdt_access_type = 0b00010000

abbrev pub gdt_access_present : ℕ
gdt_access_present = 0b10000000

abbrev pub gdt_access_executable : ℕ
gdt_access_executable = 0b00001000

abbrev pub gdt_access_dpl : ℕ
gdt_access_dpl = 0b01100000

abbrev pub gdt_flag_long_mode : ℕ
gdt_flag_long_mode = 0b00100000

abbrev pub gdt_flag_page_granularity : ℕ
gdt_flag_page_granularity = 0b10000000

-- `sizeof(struct TSSEntry)`
abbrev pub tss_entry_size : ℕ
tss_entry_size = 104

unfoldable pub gdt_set_entry : (gdt_index access flags : ℕ) → (ℕ → GdtEntry) → ℕ → GdtEntry
gdt_set_entry gdt_index access flags gdt = update gdt gdt_index (record (gdt gdt_index) {
  limit_low = 0xffff;
  access = bit_or (bit_or gdt_access_type gdt_access_present) access;
  flags = bit_or (bit_or gdt_flag_long_mode gdt_flag_page_granularity) flags;
})

-- The descriptor of a TSS at an address.
unfoldable pub tss_descriptor_of : (tss : ℕ) → TssDescriptor
tss_descriptor_of tss = record {
  limit_low = tss_entry_size;
  base_low = bit_and tss 0xffff;
  base_mid = bit_and (tss / 2 ^ 16) 0xff;
  base_mid2 = bit_and (tss / 2 ^ 24) 0xff;
  base_high = bit_and (tss / 2 ^ 32) 0xffffffff;
  access = bit_or 0b10000000 0b00001001;
  flags = 0b00010000;
  reserved = 0;
}

abbrev pub new_tss : TssEntry
new_tss = record { rsp = λ i. 0; ist = λ i. 0; io_map_base = 0xffff }

unfoldable pub gdt_set_tss : (tss : ℕ) → GdtBlock → GdtBlock
unfolding tss_descriptor_of
gdt_set_tss tss block = record block { tss = new_tss; tss_descriptor = tss_descriptor_of tss }

-- `address` and `tss` are the addresses of the block's two tables.
unfoldable pub gdt_init : (address tss : ℕ) → GdtBlock → GdtBlock
unfolding gdt_set_entry gdt_set_tss
gdt_init address tss block =
    let nothing : GdtEntry = record {
      limit_low = 0;
      base_low = 0;
      base_mid = 0;
      access = 0;
      flags = 0;
      base_high = 0;
    } in
    let cleared : ℕ → GdtEntry = λ n. if ltb n gdt_num then nothing else block.gdt n in
    let entries = gdt_set_entry 5 (bit_or gdt_access_dpl gdt_access_executable) 0 (
      gdt_set_entry 4 (bit_or gdt_access_dpl gdt_access_writable) 0 (
        gdt_set_entry 2 gdt_access_writable 0 (gdt_set_entry 1 gdt_access_executable 0 cleared))) in
    let with_tss = gdt_set_tss tss (record block { gdt = entries }) in
    record with_tss { size = gdt_num * gdt_entry_size - 1; offset = address }

-- The words of a stack's address in the TSS.
unfoldable pub gdt_set_tss_ist : (ist_num stack : ℕ) → GdtBlock → GdtBlock
gdt_set_tss_ist ist_num stack block =
    let place = sub64 ist_num 1 * 2 in
    record block {
      tss = record block.tss {
        ist =
            update (update block.tss.ist (place + 0) (stack % 2 ^ 32)) (place + 1)
              (stack / 2 ^ 32 % 2 ^ 32);
      };
    }

unfoldable pub gdt_set_tss_ring : (ring_num stack : ℕ) → GdtBlock → GdtBlock
gdt_set_tss_ring ring_num stack block =
    let place = ring_num * 2 in
    record block {
      tss = record block.tss {
        rsp =
            update (update block.tss.rsp (place + 0) (stack % 2 ^ 32)) (place + 1)
              (stack / 2 ^ 32 % 2 ^ 32);
      };
    }
