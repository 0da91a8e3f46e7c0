-- ===== src/Pci/Found.antt =====
-- The devices that pci_init finds, and the pages that it maps on the way.
use visual_os.Base.{ℕ, ◌+◌, ◌-◌, ◌*◌, Bool, ◌&&◌, if◌then◌else◌, List, [], ◌∷◌, ◌++◌}
use visual_os.Base.Libc.{Libc}
use visual_os.Paging.{Paging}
use visual_os.Pci.{
  Pci, PciMemory, has_device, bus_address, device_address, function_address, pci_max_devices,
  pci_max_functions, mcfg_header_size, descriptor_size,
}
use visual_os.Pci.Scan.{concat_range}

module _ (libc : Libc) (memory : PciMemory) where
  abbrev here : Bool → ℕ → List ℕ
  here b a = if b then a ∷ [] else []

  -- The functions of a bus whose own header and those of their device and bus are present.
  abbrev pub found_on_bus : (base bus_i : ℕ) → List ℕ
  found_on_bus base bus_i =
      let bus = bus_address base bus_i in
      concat_range pci_max_devices 0 (λ device_i.
        let device = device_address bus device_i in
        concat_range pci_max_functions 0 (λ function_i.
          let function = function_address device function_i in
          here (has_device memory bus && has_device memory device && has_device memory function)
            function))

  -- The headers that are looked at: of the functions of a present device on a present bus.
  abbrev visited_device : (bus device_i : ℕ) → List ℕ
  visited_device bus device_i =
      let device = device_address bus device_i in
      (device ∷ [])
      ++ (if has_device memory device
          then concat_range pci_max_functions 0 (λ f. (function_address device f) ∷ [])
          else [])

  abbrev pub visited_on_bus : (base bus_i : ℕ) → List ℕ
  visited_on_bus base bus_i =
      let bus = bus_address base bus_i in
      (bus ∷ [])
      ++ (if has_device memory bus then concat_range pci_max_devices 0 (visited_device bus) else [])

  -- The same for all buses of descriptor `k` of the table.
  abbrev pub of_descriptor : ((base bus_i : ℕ) → List ℕ) → (mcfg k : ℕ) → List ℕ
  of_descriptor on_bus mcfg k =
      let descriptor = memory.descriptor (mcfg + mcfg_header_size + k * descriptor_size) in
      concat_range (descriptor.bus_end - descriptor.bus_start) descriptor.bus_start
        (on_bus descriptor.base)

  -- What one device gives, with the tests nested as in the code.
  abbrev nested_device : (bus i : ℕ) → List ℕ
  nested_device bus i =
      let device = device_address bus i in
      if has_device memory device
      then concat_range pci_max_functions 0
          (λ f. here (has_device memory (function_address device f)) (function_address device f))
      else []
