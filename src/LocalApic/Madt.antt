-- ===== src/LocalApic/Madt.antt =====
-- src/kernel/x86_64/apic/madt.c and madt.h: the records of the MADT. What memory holds at an address is
-- an argument; a record is its address.
use visual_os.Base.{ℕ, zero, suc, ◌+◌, true, false, ◌==◌, ltb, if◌then◌else◌, add64, sub64, update}
use visual_os.Base.Libc.{Libc}
use visual_os.Base.Run.{ok, spins, out_of_fuel, overruns, Cmd, pure, modify, ◌>>=◌, ◌>>◌}
use visual_os.Pageframe.{pageframe_reserve}
use visual_os.Paging.{Paging, in_pageframe}
use visual_os.Paging.Attribute.{paging_set_writable}
use visual_os.Paging.Regions.{paging_identity_map}
use visual_os.Symbols.Table.{pageframe_reserve_size}

pub record MadtMemory : Type 0 where
  pub byte : ℕ → ℕ
  pub word32 : ℕ → ℕ
  pub word64 : ℕ → ℕ

-- The places that the arrays have.
abbrev pub madt_max_processors : ℕ
madt_max_processors = 128

abbrev pub madt_max_ioapics : ℕ
madt_max_ioapics = 8

abbrev pub madt_max_isos : ℕ
madt_max_isos = 16

abbrev pub madt_max_nmis : ℕ
madt_max_nmis = 8

-- An array is a function of the index, of which only the places that it has are written.
pub record MadtInformation : Type 0 where
  pub local_apic_ptr : ℕ
  pub processors : ℕ → ℕ
  pub processors_num : ℕ
  pub ioapics : ℕ → ℕ
  pub ioapics_num : ℕ
  pub isos : ℕ → ℕ
  pub isos_num : ℕ
  pub nmis : ℕ → ℕ
  pub nmis_num : ℕ

-- `s_madt_info` and `s_madt`, with the state that the page tables have.
pub record Madt : Type 0 where
  pub paging : Paging
  pub information : MadtInformation
  pub madt : ℕ

abbrev pub madt_type_local_processor : ℕ
madt_type_local_processor = 0

abbrev pub madt_type_ioapic : ℕ
madt_type_ioapic = 1

abbrev pub madt_type_interrupt_source_override : ℕ
madt_type_interrupt_source_override = 2

abbrev pub madt_type_nonmaskable_interrupt : ℕ
madt_type_nonmaskable_interrupt = 4

abbrev pub madt_type_local_apic_address_override : ℕ
madt_type_local_apic_address_override = 5

-- `sizeof(struct MADTHeader)`, and the offsets of its fields `length` and `local_apic_address`.
abbrev pub madt_header_size : ℕ
madt_header_size = 44

abbrev pub length_offset : ℕ
length_offset = 4

abbrev pub local_apic_address_offset : ℕ
local_apic_address_offset = 36

abbrev pub in_paging : {A : Type 0} → Cmd Paging A → Cmd Madt A
in_paging m s = elim (m s.paging) [
  | ok a t ↦ ok a (record s { paging = t })
  | spins ↦ spins
  | out_of_fuel ↦ out_of_fuel
  | overruns ↦ overruns
]

module _ (libc : Libc) where
  -- The page of a controller's registers is reserved, mapped to itself and made writable.
  unfoldable pub map_registers : ℕ → Cmd Madt (Unit {0})
  map_registers ptr = do
    in_paging (in_pageframe (pageframe_reserve ptr 1))
    in_paging (paging_identity_map libc ptr 1)
    in_paging (modify (paging_set_writable ptr 1))

  -- Each writes behind its array if the array is full: the code does not compare the count.
  unfoldable pub add_processor : ℕ → Cmd Madt (Unit {0})
  add_processor entry s =
      let i = s.information in
      elim (ltb i.processors_num madt_max_processors) [
        | false ↦ overruns
        | true ↦ ok tt (record s {
          information = record i {
            processors = update i.processors i.processors_num entry;
            processors_num = add64 i.processors_num 1;
          };
        })
      ]

  unfoldable pub add_ioapic : ℕ → Cmd Madt (Unit {0})
  add_ioapic entry s =
      let i = s.information in
      elim (ltb i.ioapics_num madt_max_ioapics) [
        | false ↦ overruns
        | true ↦ ok tt (record s {
          information = record i {
            ioapics = update i.ioapics i.ioapics_num entry;
            ioapics_num = add64 i.ioapics_num 1;
          };
        })
      ]

  unfoldable pub add_iso : ℕ → Cmd Madt (Unit {0})
  add_iso entry s =
      let i = s.information in
      elim (ltb i.isos_num madt_max_isos) [
        | false ↦ overruns
        | true ↦ ok tt (record s {
          information = record i {
            isos = update i.isos i.isos_num entry;
            isos_num = add64 i.isos_num 1;
          };
        })
      ]

  unfoldable pub add_nmi : ℕ → Cmd Madt (Unit {0})
  add_nmi entry s =
      let i = s.information in
      elim (ltb i.nmis_num madt_max_nmis) [
        | false ↦ overruns
        | true ↦ ok tt (record s {
          information = record i {
            nmis = update i.nmis i.nmis_num entry;
            nmis_num = add64 i.nmis_num 1;
          };
        })
      ]

  abbrev pub inform : (MadtInformation → MadtInformation) → Madt → Madt
  inform f s = record s { information = f s.information }

  abbrev pub answer : ℕ → Cmd Madt (Unit {0}) → Cmd Madt ℕ
  answer local_apic_ptr m = m >> pure local_apic_ptr

  -- The `switch` on the type of a record, which returns the address of the local APIC.
  unfoldable pub read_record : MadtMemory → (entry local_apic_ptr : ℕ) → Cmd Madt ℕ
  unfolding map_registers add_processor add_ioapic add_iso add_nmi
  read_record memory entry local_apic_ptr =
      let type = memory.byte entry in
      if type == madt_type_local_processor
      then answer local_apic_ptr (add_processor entry)
      else if type == madt_type_ioapic
      then answer local_apic_ptr (map_registers (memory.word32 (entry + 4)) >> add_ioapic entry)
      else if type == madt_type_interrupt_source_override
      then answer local_apic_ptr (add_iso entry)
      else if type == madt_type_nonmaskable_interrupt
      then answer local_apic_ptr (add_nmi entry)
      else if type == madt_type_local_apic_address_override
      then pure (memory.word64 (entry + 4))
      else pure local_apic_ptr

  -- The loop over the records from offset `t` on, on fuel: a record of length 0 keeps it where it is.
  unfoldable pub records_loop :
      (fuel : ℕ) → MadtMemory → (madt size t local_apic_ptr : ℕ) → Cmd Madt ℕ
  unfolding read_record
  records_loop zero memory madt size t local_apic_ptr = λ s. out_of_fuel
  records_loop (suc fuel) memory madt size t local_apic_ptr = elim (ltb t size) [
    | false ↦ pure local_apic_ptr
    | true ↦ do
      let entry = madt + madt_header_size + t
      ptr ← read_record memory entry local_apic_ptr
      records_loop fuel memory madt size (add64 t (memory.byte (entry + 1))) ptr
  ]

  unfoldable pub madt_init : MadtMemory → (madt : ℕ) → Cmd Madt (Unit {0})
  unfolding records_loop map_registers
  madt_init memory madt = do
    modify (λ s. record s { madt = madt })
    let length = memory.word32 (madt + length_offset)
    let size = sub64 length madt_header_size
    in_paging (in_pageframe (pageframe_reserve_size madt length))
    local_apic_ptr ←
        records_loop (suc size) memory madt size 0
          (memory.word32 (madt + local_apic_address_offset))
    map_registers local_apic_ptr
    modify (inform (λ i. record i { local_apic_ptr = local_apic_ptr }))

unfoldable pub madt_get : Madt → ℕ
madt_get s = s.madt

unfoldable pub madt_get_info : Madt → MadtInformation
madt_get_info s = s.information
