-- ===== src/Paging/Entry.antt =====
-- The bit fields of addresses and of page table entries, in src/kernel/memory/paging.c, and the bit
-- macros of src/kernel/kernel.h.
use visual_os.Base.{
  ℕ, ◌-◌, ◌*◌, ◌/◌, ◌%◌, ◌^◌, Bool, bit_and, bit_or, bit_xor, ltb, if◌then◌else◌, u64_mod,
}

pub record PageLevelIndexes : Type 0 where
  pub l4_i : ℕ
  pub l3_i : ℕ
  pub l2_i : ℕ
  pub l1_i : ℕ

unfoldable pub paging_get_indexes : ℕ → PageLevelIndexes
paging_get_indexes address =
    let address64 = address / 2 ^ 12 in
    record {
      l1_i = bit_and address64 0x01ff;
      l2_i = bit_and (address64 / 2 ^ 9) 0x01ff;
      l3_i = bit_and (address64 / 2 ^ 9 / 2 ^ 9) 0x01ff;
      l4_i = bit_and (address64 / 2 ^ 9 / 2 ^ 9 / 2 ^ 9) 0x01ff;
    }

unfoldable pub paging_set_entry_address : ℕ → ℕ → ℕ
paging_set_entry_address entry address =
    bit_or (bit_and entry 0xfff0000000000fff)
      (bit_and address 0x000000ffffffffff * 2 ^ 12 % u64_mod)

unfoldable pub paging_get_entry_address : ℕ → ℕ
paging_get_entry_address entry = bit_and entry 0x000ffffffffff000 / 2 ^ 12

-- `GET_BIT` and `SET_BIT`, for a bit below 31, where `1 << bit` is a positive `int`.
unfoldable pub get_bit : ℕ → ℕ → Bool
get_bit n bit = ltb 0 (bit_and (2 ^ bit) n)

unfoldable pub set_bit : ℕ → ℕ → Bool → ℕ
set_bit n bit value = bit_xor n (bit_and (bit_xor (if value then u64_mod - 1 else 0) n) (2 ^ bit))
