-- ===== src/Descriptors/Segments.antt =====
-- The segments as the processor reads them, and those that the scheduler gives to a task.
use visual_os.Base.{
  ℕ, ◌+◌, ◌*◌, ◌/◌, ◌%◌, ◌^◌, ◌<◌, ◌≡◌, ◌⊎◌, refl, Bool, true, ◌==◌, arith, inl, inr, u64_mod,
}
use visual_os.Base.Bits.{bit_and-ones}
use visual_os.Scheduler.State.{TaskInitialState, ContextFrame}
use visual_os.Scheduler.{new_node}
use visual_os.Descriptors.{
  GdtEntry, GdtBlock, TssDescriptor, gdt_set_entry, gdt_set_tss, gdt_init, tss_descriptor_of,
}

-- The access byte of a segment.
abbrev pub is_present : GdtEntry → Bool
is_present entry = entry.access / 2 ^ 7 % 2 == 1

abbrev pub privilege : GdtEntry → ℕ
privilege entry = entry.access / 2 ^ 5 % 4

abbrev pub is_code : GdtEntry → Bool
is_code entry = entry.access / 2 ^ 3 % 4 == 3

abbrev pub is_writable_data : GdtEntry → Bool
is_writable_data entry = (entry.access / 2 ^ 3 % 4) * 2 + entry.access / 2 % 2 == 5

abbrev pub tss_base : TssDescriptor → ℕ
tss_base d = d.base_low + d.base_mid * 2 ^ 16 + d.base_mid2 * 2 ^ 24 + d.base_high * 2 ^ 32

pub tss_descriptor_of-base : (tss : ℕ) → tss < u64_mod → tss_base (tss_descriptor_of tss) ≡ tss
unfolding tss_descriptor_of
tss_descriptor_of-base tss l = omega (
  arith,
  bit_and-ones 16 tss,
  bit_and-ones 8 (tss / 2 ^ 16),
  bit_and-ones 8 (tss / 2 ^ 24),
  bit_and-ones 32 (tss / 2 ^ 32),
)

-- What a task of a privilege level runs in.
pub record HasSegments (block : GdtBlock) (frame : ContextFrame) (rpl : ℕ) : Type 0 where
  pub code_present : is_present (block.gdt (frame.cs / 8)) ≡ true
  pub code : is_code (block.gdt (frame.cs / 8)) ≡ true
  pub code_privilege : privilege (block.gdt (frame.cs / 8)) ≡ rpl
  pub code_selector : frame.cs % 8 ≡ rpl
  pub data_present : is_present (block.gdt (frame.ss / 8)) ≡ true
  pub writable : is_writable_data (block.gdt (frame.ss / 8)) ≡ true
  pub data_privilege : privilege (block.gdt (frame.ss / 8)) ≡ rpl
  pub data_selector : frame.ss % 8 ≡ rpl

-- For an initial state of privilege level 0 or 3: the selectors of the task that `scheduler_add_task`
-- makes are those of a code segment and of a writable data segment of this level, both present in the
-- table that `gdt_init` makes; and the base in the table's TSS descriptor is the address of the TSS.
pub gdt_init-HasSegments :
    (address tss : ℕ) (block : GdtBlock) (tid queue_num : ℕ) (initial : TaskInitialState)
    → (initial.rpl ≡ 0) ⊎ (initial.rpl ≡ 3)
    → tss < u64_mod
    → HasSegments
        (gdt_init address tss block)
        (new_node tid queue_num initial).context.context_frame
        initial.rpl
      × (tss_base (gdt_init address tss block).tss_descriptor ≡ tss)
unfolding gdt_init gdt_set_entry gdt_set_tss
gdt_init-HasSegments address tss block tid queue_num initial (inl kernel) l = (
  rw kernel (record {
    code_present = refl;
    code = refl;
    code_privilege = refl;
    code_selector = refl;
    data_present = refl;
    writable = refl;
    data_privilege = refl;
    data_selector = refl;
  }),
  tss_descriptor_of-base tss l,
)
gdt_init-HasSegments address tss block tid queue_num initial (inr user) l = (
  rw user (record {
    code_present = refl;
    code = refl;
    code_privilege = refl;
    code_selector = refl;
    data_present = refl;
    writable = refl;
    data_privilege = refl;
    data_selector = refl;
  }),
  tss_descriptor_of-base tss l,
)
