-- ===== src/Paging/EntryLaws.antt =====
-- What the bit fields of a page table entry are, as arithmetic.
use visual_os.Base.{
  ℕ, ◌+◌, ◌-◌, ◌*◌, ◌/◌, ◌%◌, ◌^◌, ◌<◌, ◌≡◌, bit_and, bit_or, ◌==◌, u64_mod, arith,
}
use visual_os.Base.Bits.{
  bit_or_step, bit_and_step, bit_and_split, bit_or_split, bit_and-ones, bit_and-zero, bit_or-zero,
  zero-bit_or, zero-bit_and,
}
use visual_os.Paging.Entry.{
  paging_get_indexes, paging_set_entry_address, paging_get_entry_address, get_bit,
}

-- The four indexes and the offset are the digits of the address.
pub indexes-digits :
    (a : ℕ)
    → let i = paging_get_indexes a in
      (i.l1_i ≡ a / 4096 % 512)
      × (i.l2_i ≡ a / 4096 / 512 % 512)
      × (i.l3_i ≡ a / 4096 / 512 / 512 % 512)
      × (i.l4_i ≡ a / 4096 / 512 / 512 / 512 % 512)
unfolding paging_get_indexes
indexes-digits a = (
  bit_and-ones 9 (a / 4096),
  bit_and-ones 9 (a / 4096 / 512),
  bit_and-ones 9 (a / 4096 / 512 / 512),
  bit_and-ones 9 (a / 4096 / 512 / 512 / 512),
)

keep_flags : (e : ℕ) → e < u64_mod → bit_and e 0xfff0000000000fff ≡ e / 2 ^ 52 * 2 ^ 52 + e % 2 ^ 12
keep_flags e h = ground (
  arith,
  bit_and_split 52 (e / 2 ^ 52) 0xfff (e % 2 ^ 52) 0xfff,
  bit_and-ones 12 (e / 2 ^ 52),
  bit_and-ones 12 (e % 2 ^ 52),
)

join_address :
    (high low a : ℕ)
    → low < 2 ^ 12
    → a < 2 ^ 40
    → bit_or (high * 2 ^ 52 + low) (a * 2 ^ 12) ≡ high * 2 ^ 52 + a * 2 ^ 12 + low
join_address high low a h k = ground (
  arith,
  bit_or_split 12 (high * 2 ^ 40) a low 0,
  bit_or_split 40 high 0 0 a,
  bit_or-zero low,
  bit_or-zero high,
  zero-bit_or a,
)

pub set_entry_address_lem :
    (e a : ℕ)
    → e < u64_mod
    → paging_set_entry_address e a ≡ e / 2 ^ 52 * 2 ^ 52 + a % 2 ^ 40 * 2 ^ 12 + e % 2 ^ 12
unfolding paging_set_entry_address
set_entry_address_lem e a h =
    ground
      (arith, keep_flags e, bit_and-ones 40 a, join_address (e / 2 ^ 52) (e % 2 ^ 12) (a % 2 ^ 40))

pub get_entry_address_lem : (e : ℕ) → paging_get_entry_address e ≡ e / 2 ^ 12 % 2 ^ 40
unfolding paging_get_entry_address
get_entry_address_lem e = ground (
  arith,
  bit_and_split 12 (e / 2 ^ 12) (2 ^ 40 - 1) (e % 2 ^ 12) 0,
  bit_and-ones 40 (e / 2 ^ 12),
  bit_and-zero (e % 2 ^ 12),
)

pub or_present : (e : ℕ) → bit_or e 1 ≡ e / 2 * 2 + 1
or_present e = omega (arith, bit_or_step e 1, bit_or-zero (e / 2))

pub get_bit-zero : (e : ℕ) → get_bit e 0 ≡ (e % 2 == 1)
unfolding get_bit
get_bit-zero e = ground (arith, bit_and_step 1 e, zero-bit_and (e / 2))

-- The address that is put into an entry of 64 bits is read back, cut to 40 bits, and the twelve low
-- and the twelve high bits of the entry stay.
pub get-set_entry_address :
    (e a : ℕ)
    → e < u64_mod
    → (paging_get_entry_address (paging_set_entry_address e a) ≡ a % 2 ^ 40)
      × (paging_set_entry_address e a % 2 ^ 12 ≡ e % 2 ^ 12)
      × (paging_set_entry_address e a / 2 ^ 52 ≡ e / 2 ^ 52)
get-set_entry_address e a h = rw (get_entry_address_lem, set_entry_address_lem e a h) (omega arith)
