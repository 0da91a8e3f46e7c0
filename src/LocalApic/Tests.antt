-- ===== src/LocalApic/Tests.antt =====
-- A run of local_apic.c with two non-maskable interrupts, and of madt.c with a table of four records.
use visual_os.Base.{ℕ, if◌then◌else◌, ◌==◌, ◌*◌, ◌^◌, ◌≡◌, refl, arith, List, [], ◌∷◌}
use visual_os.Base.Libc.{model_libc}
use visual_os.LocalApic.{MadtNonMaskableInterrupt, local_apic_start_lints}
use visual_os.LocalApic.Lints.{Started, local_apic_start_lints-Started}
use visual_os.LocalApic.Madt.{Madt, MadtMemory, madt_init}
use visual_os.LocalApic.Records.{IsTable, keeping}
use visual_os.LocalApic.Informed.{map_controllers, informed_of, madt_init-informed}

-- The first is for all processors, the second for processor 3.
abbrev two_nmis : ℕ → MadtNonMaskableInterrupt
two_nmis i =
    if i == 0
    then record { local_apic_id = 0xff; flags = 5; lint = 1 }
    else record { local_apic_id = 3; flags = 8; lint = 0 }

-- The registers of processor 3.
abbrev registers : ℕ → ℕ
registers o = if o == 0x20 then 3 * 2 ^ 24 else if o == 0x320 then 0x10000 else 0

local_apic_start_lints-Started_example :
    Started two_nmis 2 registers (local_apic_start_lints two_nmis 2 registers)
local_apic_start_lints-Started_example = local_apic_start_lints-Started two_nmis 2 registers

-- A table at 4096: a processor, an I/O APIC at 0xfec00000, an override of the local APIC's address by
-- 0xfee01000, and another processor.
abbrev records : List ℕ
records = 4140 ∷ 4148 ∷ 4160 ∷ 4172 ∷ []

abbrev table : MadtMemory
table = record {
  byte = λ a.
      if a == 4141
      then 8
      else if a == 4148
      then 1
      else if a == 4149
      then 12
      else if a == 4160
      then 5
      else if a == 4161
      then 12
      else if a == 4173
      then 8
      else 0;
  word32 = λ a.
      if a == 4100
      then 84
      else if a == 4132
      then 0xfee00000
      else if a == 4152
      then 0xfec00000
      else 0;
  word64 = λ a. if a == 4164 then 0xfee01000 else 0;
}

table-IsTable : IsTable table 4096 40 0 records
table-IsTable = (
  refl,
  omega arith,
  omega arith,
  omega arith,
  (
    refl,
    omega arith,
    omega arith,
    omega arith,
    (
      refl,
      omega arith,
      omega arith,
      omega arith,
      (refl, omega arith, omega arith, omega arith, omega arith),
    ),
  ),
)

abbrev madt : Madt
madt = record {
  paging = record {
    pageframe = record {
      memory_total_size = 32768;
      memory_used_size = 0;
      memory_reserved_size = 0;
      pageframemap = record { buffer = λ k. 0; size = 1 };
      current_index = 0;
      mutex = 0;
    };
    tables = λ a i. 0;
    pagetable_l4 = 0;
  };
  information = record {
    local_apic_ptr = 0;
    processors = λ k. 0;
    processors_num = 0;
    ioapics = λ k. 0;
    ioapics_num = 0;
    isos = λ k. 0;
    isos_num = 0;
    nmis = λ k. 0;
    nmis_num = 0;
  };
  madt = 0;
}

madt_init-informed_example :
    madt_init model_libc table 4096 madt
    ≡ keeping tt
        (informed_of model_libc table 4096 records madt.information)
        (record madt { madt = 4096 })
        (map_controllers model_libc table 4096 records madt.paging)
madt_init-informed_example =
    madt_init-informed model_libc table 4096 records madt (omega arith) (omega arith) table-IsTable
      (omega arith, omega arith, omega arith, omega arith)

-- What is kept of the table.
table-informed :
    let i = informed_of model_libc table 4096 records madt.information in
    (i.processors_num ≡ 2)
    × (i.processors 0 ≡ 4140)
    × (i.processors 1 ≡ 4172)
    × (i.ioapics_num ≡ 1)
    × (i.ioapics 0 ≡ 4148)
    × (i.isos_num ≡ 0)
    × (i.local_apic_ptr ≡ 0xfee01000)
table-informed = (refl, refl, refl, refl, refl, refl, refl)
