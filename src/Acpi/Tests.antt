-- ===== src/Acpi/Tests.antt =====
-- A search among three tables.
use visual_os.Base.{ℕ, ◌+◌, ◌*◌, ◌≡◌, refl, ◌==◌, if◌then◌else◌, arith}
use visual_os.Acpi.{Memory, sdt_header_size, signature_loop, table_loop, acpi_get_table}
use visual_os.Acpi.Search.{Outcome, acpi_get_table-Outcome}

abbrev apic_signature : ℕ → ℕ
apic_signature i = if i == 0 then 65 else if i == 1 then 80 else if i == 2 then 73 else 67

-- Tables at 5000, 5008 and so on; only the one at 5008 has the four letters `APIC`.
abbrev tables : Memory
tables = record {
  word = λ a. a + 3964;
  signature = λ table i. if table == 5008 then apic_signature i else 88;
}

finds_second : acpi_get_table tables 1000 (36 + 8 * 3) apic_signature ≡ 5008
unfolding acpi_get_table table_loop signature_loop
finds_second = refl

acpi_get_table-Outcome_example :
    Outcome tables 1000 apic_signature 0 3
      (acpi_get_table tables 1000 (sdt_header_size + 8 * 3) apic_signature)
acpi_get_table-Outcome_example = acpi_get_table-Outcome tables 1000 3 apic_signature (omega arith)
