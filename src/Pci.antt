-- ===== src/Pci.antt =====
-- src/kernel/x86_64/pci.c and pci.h: the scan of the buses. The configuration space and the table
-- that acpi.c found are memory, an argument; a device is kept as the address of its header.
pub mod Header
pub mod Ids
pub mod Named
pub mod Scan
pub mod Found
mod Tests
use visual_os.Base.{
  ℕ, zero, suc, ◌+◌, ◌-◌, ◌*◌, ◌/◌, ◌^◌, Bool, true, false, not, ◌||◌, ◌==◌, ltb, if◌then◌else◌,
  add64, sub64, update,
}
use visual_os.Base.Libc.{Libc}
use visual_os.Base.Run.{Run, ok, spins, out_of_fuel, overruns, Cmd, pure, gets, modify, ◌>>=◌, ◌>>◌}
use visual_os.Pageframe.{pageframe_reserve}
use visual_os.Pci.Header.{PciDeviceHeader}
use visual_os.Paging.{Paging, in_pageframe}
use visual_os.Paging.Regions.{paging_identity_map}

pub record PciDeviceConfigurationDescriptor : Type 0 where
  pub base : ℕ
  pub bus_start : ℕ
  pub bus_end : ℕ

-- What memory holds at an address: a header, a descriptor, and the length of a table.
pub record PciMemory : Type 0 where
  pub header : ℕ → PciDeviceHeader
  pub descriptor : ℕ → PciDeviceConfigurationDescriptor
  pub length : ℕ → ℕ

-- `PCI_MAX_LANES`
abbrev pub pci_max_lanes : ℕ
pci_max_lanes = 32

-- `s_pci_devices` and `s_pci_devices_num`, with the state that the page tables have. The array has
-- `pci_max_lanes` places: what the function is behind them is not part of it.
pub record Pci : Type 0 where
  pub paging : Paging
  pub devices : ℕ → ℕ
  pub devices_num : ℕ

abbrev pub pci_max_devices : ℕ
pci_max_devices = 32

abbrev pub pci_max_functions : ℕ
pci_max_functions = 8

abbrev pub mcfg_header_size : ℕ
mcfg_header_size = 44

abbrev pub descriptor_size : ℕ
descriptor_size = 16

abbrev pub in_paging : {A : Type 0} → Cmd Paging A → Cmd Pci A
in_paging m s = elim (m s.paging) [
  | ok a t ↦ ok a (record s { paging = t })
  | spins ↦ spins
  | out_of_fuel ↦ out_of_fuel
  | overruns ↦ overruns
]

-- `for (i = from; i < from + rounds; i++)`
unfoldable pub each_index : (rounds i : ℕ) → (ℕ → Cmd Pci (Unit {0})) → Cmd Pci (Unit {0})
each_index zero i body = pure tt
each_index (suc rounds) i body = do body i; each_index rounds (i + 1) body

-- `device_id` is neither 0 nor 0xffff.
abbrev pub has_device : PciMemory → ℕ → Bool
has_device memory address =
    let id = (memory.header address).device_id in not (id == 0 || id == 0xffff)

abbrev pub bus_address : (base bus_i : ℕ) → ℕ
bus_address base bus_i = add64 base (bus_i * 2 ^ 20)

abbrev pub device_address : (bus device_i : ℕ) → ℕ
device_address bus device_i = add64 bus (device_i * 2 ^ 15)

abbrev pub function_address : (device function_i : ℕ) → ℕ
function_address device function_i = add64 device (function_i * 2 ^ 12)

-- The code does not test the index: with the array full, it writes behind it.
unfoldable pub add_device : ℕ → Cmd Pci (Unit {0})
add_device pci_header s = elim (ltb s.devices_num pci_max_lanes) [
  | true ↦ ok tt (record s {
    devices = update s.devices s.devices_num pci_header;
    devices_num = add64 s.devices_num 1;
  })
  | false ↦ overruns
]

module _ (libc : Libc) (memory : PciMemory) where
  -- The page of a header is reserved and mapped to itself.
  unfoldable pub map_header : ℕ → Cmd Pci (Unit {0})
  map_header address = do
    in_paging (in_pageframe (pageframe_reserve address 1))
    in_paging (paging_identity_map libc address 1)

  -- The bodies of the three loops, from the innermost on.
  unfoldable pub scan_function : (device function_i : ℕ) → Cmd Pci (Unit {0})
  unfolding map_header add_device
  scan_function device function_i = do
    let function = function_address device function_i
    map_header function
    if has_device memory function then add_device function else pure tt

  unfoldable pub scan_device : (bus device_i : ℕ) → Cmd Pci (Unit {0})
  unfolding map_header scan_function each_index
  scan_device bus device_i = do
    let device = device_address bus device_i
    map_header device
    if has_device memory device
        then each_index pci_max_functions 0 (scan_function device)
        else pure tt

  unfoldable pub scan_bus : (base bus_i : ℕ) → Cmd Pci (Unit {0})
  unfolding map_header scan_device each_index
  scan_bus base bus_i = do
    let bus = bus_address base bus_i
    map_header bus
    if has_device memory bus then each_index pci_max_devices 0 (scan_device bus) else pure tt

  -- The loop over the descriptors from offset `t` on, on fuel: the length of a table that is shorter
  -- than its header wraps, and the loop then does not end.
  unfoldable pub descriptors_loop : (fuel mcfg size t : ℕ) → Cmd Pci (Unit {0})
  unfolding scan_bus each_index
  descriptors_loop zero mcfg size t = λ s. out_of_fuel
  descriptors_loop (suc fuel) mcfg size t = elim (ltb t size) [
    | false ↦ pure tt
    | true ↦ do
      let descriptor = memory.descriptor (mcfg + mcfg_header_size + t)
      each_index (descriptor.bus_end - descriptor.bus_start) descriptor.bus_start
          (scan_bus descriptor.base)
      descriptors_loop fuel mcfg size (add64 t descriptor_size)
  ]

  unfoldable pub pci_init : (mcfg : ℕ) → Cmd Pci (Unit {0})
  unfolding descriptors_loop
  pci_init mcfg =
      let size = sub64 (memory.length mcfg) mcfg_header_size in
      descriptors_loop (size / descriptor_size + 2) mcfg size 0
