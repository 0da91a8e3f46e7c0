-- ===== src/Pci/Tests.antt =====
-- The theorems about PCI at a table of one descriptor with one bus.
use visual_os.Base.{ℕ, List, [], ◌∷◌, ◌≡◌, ◌&&◌, refl, ◌==◌, if◌then◌else◌}
use visual_os.Base.Libc.{model_libc}
use visual_os.Base.Table.{IsOnly}
use visual_os.Pci.Header.{PciDeviceHeader}
use visual_os.Paging.{Paging}
use visual_os.Pci.{Pci, PciMemory}
use visual_os.Pci.Ids.{
  PciClassIdentifier, PciSublassIdentifier, PciProgrammingInterfaceIdentifier, PciVendorIdentifier,
  pci_classes, pci_subclasses, pci_progifs, pci_vendors, pci_get_class_str, pci_get_subclass_str,
  pci_get_progif_str, pci_get_vendor_str,
}
use visual_os.Pci.Named.{pci_get_str-Names}
use visual_os.Pci.Scan.{concat_range}
use visual_os.Pci.Found.{of_descriptor, found_on_bus}

abbrev ahci : PciDeviceHeader
ahci = record { vendor_id = 0x8086; device_id = 0x2922; program_if = 1; subclass = 6; class = 1 }

abbrev absent : PciDeviceHeader
absent = record { vendor_id = 0; device_id = 0xffff; program_if = 0; subclass = 0; class = 0 }

-- One controller, at the first function of the first device of bus 0.
abbrev space : PciMemory
space = record {
  header = λ a. if a == 0xe0000000 then ahci else absent;
  descriptor = λ a. record { base = 0xe0000000; bus_start = 0; bus_end = 1 };
  length = λ a. 60;
}

abbrev no_devices : Pci
no_devices = record {
  paging = record {
    pageframe = record {
      memory_total_size = 0;
      memory_used_size = 0;
      memory_reserved_size = 0;
      pageframemap = record { buffer = λ k. 0; size = 0 };
      current_index = 0;
      mutex = 0;
    };
    tables = λ t i. 0;
    pagetable_l4 = 0;
  };
  devices = λ k. 0;
  devices_num = 0;
}

abbrev controller : List ℕ
controller =
    concat_range 1 0 (of_descriptor model_libc space (found_on_bus model_libc space) 0x5000)

controller_only : controller ≡ 0xe0000000 ∷ []
controller_only = refl

pci_get_str-Names_example :
    IsOnly
      (λ (e : PciClassIdentifier). e.class == ahci.class)
      (λ (e : PciClassIdentifier). e.name)
      "?"
      pci_classes
      (pci_get_class_str ahci)
    × IsOnly
        (λ (e : PciSublassIdentifier). e.class == ahci.class && e.subclass == ahci.subclass)
        (λ (e : PciSublassIdentifier). e.name)
        "?"
        pci_subclasses
        (pci_get_subclass_str ahci)
    × IsOnly
        (λ (e : PciProgrammingInterfaceIdentifier).
          e.class == ahci.class && e.subclass == ahci.subclass && e.program_if == ahci.program_if)
        (λ (e : PciProgrammingInterfaceIdentifier). e.name)
        "?"
        pci_progifs
        (pci_get_progif_str ahci)
    × IsOnly
        (λ (e : PciVendorIdentifier). e.vendor_id == ahci.vendor_id)
        (λ (e : PciVendorIdentifier). e.name)
        "?"
        pci_vendors
        (pci_get_vendor_str ahci)
pci_get_str-Names_example = pci_get_str-Names ahci

names_ahci : pci_get_progif_str ahci ≡ "AHCI 1.0"
unfolding pci_get_progif_str
names_ahci = refl
