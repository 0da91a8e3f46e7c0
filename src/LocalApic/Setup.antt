-- ===== src/LocalApic/Setup.antt =====
-- local_apic_init of src/kernel/x86_64/apic/local_apic.c: the page of the start code for other
-- processors, and the bit that enables the controller.
use visual_os.Base.{ℕ, bit_or, update}
use visual_os.Base.Run.{Cmd, pure, gets, modify, ◌>>=◌, ◌>>◌}
use visual_os.Pageframe.{pageframe_lock}
use visual_os.Paging.{in_pageframe}
use visual_os.Paging.Attribute.{nearest_page, paging_set_writable_size}
use visual_os.Boot.Setup.{trampoline_target, trampoline_target_size}
use visual_os.LocalApic.{
  local_apic_get_register, local_apic_set_register, reg_offset_spurious_int_vector,
}
use visual_os.LocalApic.Madt.{Madt, in_paging, madt_get_info}

-- `controllers` are the registers of each controller, by its address and their offset.
unfoldable pub local_apic_init : (controllers : ℕ → ℕ → ℕ) → Cmd Madt (ℕ → ℕ → ℕ)
unfolding madt_get_info
local_apic_init controllers = do
  in_paging (in_pageframe (pageframe_lock trampoline_target (nearest_page trampoline_target_size)))
  in_paging (modify (paging_set_writable_size trampoline_target trampoline_target_size))
  local_apic_ptr ← gets (λ s. (madt_get_info s).local_apic_ptr)
  let registers = controllers local_apic_ptr
  let spurious_reg = local_apic_get_register registers reg_offset_spurious_int_vector
  pure (
      update controllers local_apic_ptr (
        local_apic_set_register reg_offset_spurious_int_vector (bit_or spurious_reg 0x100)
          registers))
