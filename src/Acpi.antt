-- ===== src/Acpi.antt =====
-- src/kernel/x86_64/acpi.c: the search for a table by its signature. The entries of the XSDT are the
-- 64-bit words behind its header, and a table's signature are the bytes at its address.
pub mod Search
mod Tests
use visual_os.Base.{ℕ, zero, suc, ◌+◌, ◌/◌, Bool, true, false, ◌==◌, sub64}

abbrev pub null : ℕ
null = 0

-- `sizeof(struct SDTHeader)`, which is packed.
abbrev pub sdt_header_size : ℕ
sdt_header_size = 36

pub record Memory : Type 0 where
  -- `*(uint64_t*) address`
  pub word : ℕ → ℕ
  -- `((struct SDTHeader*) address)->signature[i]`
  pub signature : ℕ → ℕ → ℕ

-- The inner loop, from byte `i` on: whether it returns.
unfoldable pub signature_loop : (rounds i : ℕ) → (header signature : ℕ → ℕ) → Bool
signature_loop zero i header signature = false
signature_loop (suc rounds) i header signature = elim (header i == signature i) [
  | false ↦ false
  | true ↦ elim (i == 3) [ true ↦ true | false ↦ signature_loop rounds (i + 1) header signature ]
]

-- The outer loop, from the entry at offset `t` on.
unfoldable pub table_loop : (rounds t : ℕ) → Memory → (xsdt : ℕ) → (signature : ℕ → ℕ) → ℕ
table_loop zero t memory xsdt signature = null
table_loop (suc rounds) t memory xsdt signature =
    let header = memory.word (xsdt + sdt_header_size + t) in
    elim (signature_loop 4 0 (memory.signature header) signature) [
      | true ↦ header
      | false ↦ table_loop rounds (t + 8) memory xsdt signature
    ]

-- `t` goes in steps of 8 up to `length - sizeof(struct SDTHeader)`, a `size_t`.
unfoldable pub acpi_get_table : Memory → (xsdt length : ℕ) → (signature : ℕ → ℕ) → ℕ
acpi_get_table memory xsdt length signature =
    table_loop ((sub64 length sdt_header_size + 7) / 8) 0 memory xsdt signature
