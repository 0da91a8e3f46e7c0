-- ===== src/Pci/Ids.antt =====
-- src/kernel/x86_64/pci_id.c: the names of classes and vendors of PCI devices. The four structs of
-- pci.h have the same size, so the bound of each loop is the length of its table.
use Prim.Native.String.{String}
use visual_os.Base.{ℕ, Bool, ◌==◌, ◌&&◌, List, [], ◌∷◌}
use visual_os.Base.Table.{first_match}
use visual_os.Pci.Header.{PciDeviceHeader}

pub record PciClassIdentifier : Type 0 where
  pub class : ℕ
  pub name : String

pub record PciSublassIdentifier : Type 0 where
  pub class : ℕ
  pub subclass : ℕ
  pub name : String

pub record PciProgrammingInterfaceIdentifier : Type 0 where
  pub class : ℕ
  pub subclass : ℕ
  pub program_if : ℕ
  pub name : String

pub record PciVendorIdentifier : Type 0 where
  pub vendor_id : ℕ
  pub name : String

abbrev pci_classes_entry : ℕ → String → PciClassIdentifier
pci_classes_entry class name = record { class = class; name = name }

unfoldable pub pci_classes : List PciClassIdentifier
pci_classes =
    pci_classes_entry 0x00 "Unclassified"
    ∷ pci_classes_entry 0x01 "Mass Storage Controller"
    ∷ pci_classes_entry 0x02 "Network Controller"
    ∷ pci_classes_entry 0x03 "Display Controller"
    ∷ pci_classes_entry 0x04 "Multimedia Controller"
    ∷ pci_classes_entry 0x05 "Memory Controller"
    ∷ pci_classes_entry 0x06 "Bridge Device"
    ∷ pci_classes_entry 0x07 "Simple Communication Controller"
    ∷ pci_classes_entry 0x08 "Base System Peripheral"
    ∷ pci_classes_entry 0x09 "Input Device Controller"
    ∷ pci_classes_entry 0x0a "Docking Station"
    ∷ pci_classes_entry 0x0b "Processor"
    ∷ pci_classes_entry 0x0c "Serial Bus Controller"
    ∷ pci_classes_entry 0x0d "Wireless Controller"
    ∷ pci_classes_entry 0x0e "Intelligent Controller"
    ∷ pci_classes_entry 0x0f "Satellite Communication Controller"
    ∷ pci_classes_entry 0x10 "Encryption Controller"
    ∷ pci_classes_entry 0x11 "Signal Processing Controller"
    ∷ pci_classes_entry 0x12 "Processing Accelerator"
    ∷ pci_classes_entry 0x13 "Non Essential Instrumentation"
    ∷ pci_classes_entry 0x40 "Co-Processor"
    ∷ []

abbrev pci_subclasses_entry : ℕ → ℕ → String → PciSublassIdentifier
pci_subclasses_entry class subclass name = record {
  class = class;
  subclass = subclass;
  name = name;
}

unfoldable pub pci_subclasses : List PciSublassIdentifier
pci_subclasses =
    pci_subclasses_entry 0x00 0x00 "Non-VGA-Compatible devices"
    ∷ pci_subclasses_entry 0x00 0x01 "VGA-Compatible Device"
    ∷ pci_subclasses_entry 0x01 0x00 "SCSI Bus Controller"
    ∷ pci_subclasses_entry 0x01 0x01 "IDE Controller"
    ∷ pci_subclasses_entry 0x01 0x02 "Floppy Disk Controller"
    ∷ pci_subclasses_entry 0x01 0x03 "IPI Bus Controller"
    ∷ pci_subclasses_entry 0x01 0x04 "RAID Controller"
    ∷ pci_subclasses_entry 0x01 0x05 "ATA Controller"
    ∷ pci_subclasses_entry 0x01 0x06 "Serial ATA"
    ∷ pci_subclasses_entry 0x01 0x07 "Serial Attached SCSI"
    ∷ pci_subclasses_entry 0x01 0x08 "Non-Volatile Memory Controller"
    ∷ pci_subclasses_entry 0x01 0x80 "Other"
    ∷ pci_subclasses_entry 0x02 0x00 "Ethernet Controller"
    ∷ pci_subclasses_entry 0x02 0x01 "Token Ring Controller"
    ∷ pci_subclasses_entry 0x02 0x02 "FDDI Controller"
    ∷ pci_subclasses_entry 0x02 0x03 "ATM Controller"
    ∷ pci_subclasses_entry 0x02 0x04 "ISDN Controller"
    ∷ pci_subclasses_entry 0x02 0x05 "WorldFip Controller"
    ∷ pci_subclasses_entry 0x02 0x06 "PICMG 2.14 Multi Computing"
    ∷ pci_subclasses_entry 0x02 0x07 "Infiniband Controller"
    ∷ pci_subclasses_entry 0x02 0x08 "Fabric Controller"
    ∷ pci_subclasses_entry 0x02 0x80 "Other"
    ∷ pci_subclasses_entry 0x03 0x00 "VGA Compatible Controller"
    ∷ pci_subclasses_entry 0x03 0x01 "XGA Controller"
    ∷ pci_subclasses_entry 0x03 0x02 "3D Controller (Not VGA-Compatible)"
    ∷ pci_subclasses_entry 0x03 0x80 "Other"
    ∷ pci_subclasses_entry 0x04 0x00 "Multimedia Video Controller"
    ∷ pci_subclasses_entry 0x04 0x01 "Multimedia Audio Controller"
    ∷ pci_subclasses_entry 0x04 0x02 "Computer Telephony Device"
    ∷ pci_subclasses_entry 0x04 0x03 "Audio Device"
    ∷ pci_subclasses_entry 0x04 0x80 "Other"
    ∷ pci_subclasses_entry 0x05 0x00 "RAM Controller"
    ∷ pci_subclasses_entry 0x05 0x01 "Flash Controller"
    ∷ pci_subclasses_entry 0x05 0x80 "Other"
    ∷ pci_subclasses_entry 0x06 0x00 "Host Bridge"
    ∷ pci_subclasses_entry 0x06 0x01 "ISA Bridge"
    ∷ pci_subclasses_entry 0x06 0x02 "EISA Bridge"
    ∷ pci_subclasses_entry 0x06 0x03 "MCA Bridge"
    ∷ pci_subclasses_entry 0x06 0x04 "PCI-to-PCI Bridge"
    ∷ pci_subclasses_entry 0x06 0x05 "PCMCIA Bridge"
    ∷ pci_subclasses_entry 0x06 0x06 "NuBus Bridge"
    ∷ pci_subclasses_entry 0x06 0x07 "CardBus Bridge"
    ∷ pci_subclasses_entry 0x06 0x08 "RACEway Bridge"
    ∷ pci_subclasses_entry 0x06 0x09 "PCI-to-PCI Bridge"
    ∷ pci_subclasses_entry 0x06 0x0a "InfiniBand-to-PCI Host Bridge"
    ∷ pci_subclasses_entry 0x06 0x80 "Other"
    ∷ pci_subclasses_entry 0x07 0x00 "Serial Controller"
    ∷ pci_subclasses_entry 0x07 0x01 "Parallel Controller"
    ∷ pci_subclasses_entry 0x07 0x02 "Multiport Serial Controller"
    ∷ pci_subclasses_entry 0x07 0x03 "Modem"
    ∷ pci_subclasses_entry 0x07 0x04 "IEEE 488.1/2 (GPIB) Controller"
    ∷ pci_subclasses_entry 0x07 0x05 "Smart Card"
    ∷ pci_subclasses_entry 0x07 0x80 "Other"
    ∷ pci_subclasses_entry 0x08 0x00 "PIC"
    ∷ pci_subclasses_entry 0x08 0x01 "DMA Controller"
    ∷ pci_subclasses_entry 0x08 0x02 "Timer"
    ∷ pci_subclasses_entry 0x08 0x03 "RTC Controller"
    ∷ pci_subclasses_entry 0x08 0x04 "PCI Hot-Plug Controller"
    ∷ pci_subclasses_entry 0x08 0x05 "SD Host controller"
    ∷ pci_subclasses_entry 0x08 0x06 "IOMMU"
    ∷ pci_subclasses_entry 0x08 0x80 "Other"
    ∷ pci_subclasses_entry 0x09 0x00 "Keyboard Controller"
    ∷ pci_subclasses_entry 0x09 0x01 "Digitizer Pen"
    ∷ pci_subclasses_entry 0x09 0x02 "Mouse Controller"
    ∷ pci_subclasses_entry 0x09 0x03 "Scanner Controller"
    ∷ pci_subclasses_entry 0x09 0x04 "Gameport Controller"
    ∷ pci_subclasses_entry 0x09 0x80 "Other"
    ∷ pci_subclasses_entry 0x0a 0x00 "Generic"
    ∷ pci_subclasses_entry 0x0a 0x80 "Other"
    ∷ pci_subclasses_entry 0x0b 0x00 "386"
    ∷ pci_subclasses_entry 0x0b 0x01 "486"
    ∷ pci_subclasses_entry 0x0b 0x02 "Pentium"
    ∷ pci_subclasses_entry 0x0b 0x03 "Pentium Pro"
    ∷ pci_subclasses_entry 0x0b 0x10 "Alpha"
    ∷ pci_subclasses_entry 0x0b 0x20 "PowerPC"
    ∷ pci_subclasses_entry 0x0b 0x30 "MIPS"
    ∷ pci_subclasses_entry 0x0b 0x40 "Co-Processor"
    ∷ pci_subclasses_entry 0x0b 0x80 "Other"
    ∷ pci_subclasses_entry 0x0c 0x00 "FireWire (IEEE 1394) Controller"
    ∷ pci_subclasses_entry 0x0c 0x01 "ACCESS Bus"
    ∷ pci_subclasses_entry 0x0c 0x02 "SSA"
    ∷ pci_subclasses_entry 0x0c 0x03 "USB Controller"
    ∷ pci_subclasses_entry 0x0c 0x04 "Fiber Channel"
    ∷ pci_subclasses_entry 0x0c 0x05 "SMBus"
    ∷ pci_subclasses_entry 0x0c 0x06 "InfiniBand"
    ∷ pci_subclasses_entry 0x0c 0x07 "IPMI Interface"
    ∷ pci_subclasses_entry 0x0c 0x08 "SERCOS Interface (IEC 61491)"
    ∷ pci_subclasses_entry 0x0c 0x09 "CANbus"
    ∷ pci_subclasses_entry 0x0c 0x80 "Other"
    ∷ pci_subclasses_entry 0x0d 0x00 "iRDA Compatible Controller"
    ∷ pci_subclasses_entry 0x0d 0x01 "Consumer IR Controller"
    ∷ pci_subclasses_entry 0x0d 0x10 "RF Controller"
    ∷ pci_subclasses_entry 0x0d 0x11 "Bluetooth Controller"
    ∷ pci_subclasses_entry 0x0d 0x12 "Broadband Controller"
    ∷ pci_subclasses_entry 0x0d 0x20 "Ethernet Controller (802.1a)"
    ∷ pci_subclasses_entry 0x0d 0x21 "Ethernet Controller (802.1b)"
    ∷ pci_subclasses_entry 0x0d 0x80 "Other"
    ∷ pci_subclasses_entry 0x0e 0x00 "I20"
    ∷ pci_subclasses_entry 0x0f 0x01 "Satellite TV Controller"
    ∷ pci_subclasses_entry 0x0f 0x02 "Satellite Audio Controller"
    ∷ pci_subclasses_entry 0x0f 0x03 "Satellite Voice Controller"
    ∷ pci_subclasses_entry 0x0f 0x04 "Satellite Data Controller"
    ∷ pci_subclasses_entry 0x10 0x00 "Network and Computing Encrpytion/Decryption"
    ∷ pci_subclasses_entry 0x10 0x01 "Entertainment Encryption/Decryption"
    ∷ pci_subclasses_entry 0x10 0x80 "Other Encryption/Decryption"
    ∷ pci_subclasses_entry 0x11 0x00 "DPIO Modules"
    ∷ pci_subclasses_entry 0x11 0x01 "Performance Counters"
    ∷ pci_subclasses_entry 0x11 0x10 "Communication Synchronizer"
    ∷ pci_subclasses_entry 0x11 0x20 "Signal Processing Management"
    ∷ pci_subclasses_entry 0x11 0x80 "Other"
    ∷ []

abbrev pci_progifs_entry : ℕ → ℕ → ℕ → String → PciProgrammingInterfaceIdentifier
pci_progifs_entry class subclass program_if name = record {
  class = class;
  subclass = subclass;
  program_if = program_if;
  name = name;
}

unfoldable pub pci_progifs : List PciProgrammingInterfaceIdentifier
pci_progifs =
    pci_progifs_entry 0x01 0x01 0x00 "ISA Compatibility mode-only controller"
    ∷ pci_progifs_entry 0x01 0x01 0x05 "PCI native mode-only controller"
    ∷ pci_progifs_entry 0x01 0x01 0x0a "ISA Compatibility mode controller w/ both channels PCI"
    ∷ pci_progifs_entry 0x01 0x01 0x0f "PCI native mode controller w/ both channels ISA"
    ∷ pci_progifs_entry 0x01 0x01 0x80 "ISA Compatibility mode-only controller w/ mastering"
    ∷ pci_progifs_entry 0x01 0x01 0x85 "PCI native mode-only controller w/ mastering"
    ∷ pci_progifs_entry 0x01 0x01 0x8a
        "ISA Compatibility mode controller w/ both channels PCI & mastering"
    ∷ pci_progifs_entry 0x01 0x01 0x8f "PCI native mode controller w/ both channels ISA & mastering"
    ∷ pci_progifs_entry 0x01 0x05 0x20 "Single DMA"
    ∷ pci_progifs_entry 0x01 0x05 0x30 "Chained DMA"
    ∷ pci_progifs_entry 0x01 0x06 0x00 "Vendor Specific Interface"
    ∷ pci_progifs_entry 0x01 0x06 0x01 "AHCI 1.0"
    ∷ pci_progifs_entry 0x01 0x06 0x02 "Serial Storage Bus"
    ∷ pci_progifs_entry 0x01 0x07 0x00 "SAS"
    ∷ pci_progifs_entry 0x01 0x07 0x01 "Serial Storage Bus"
    ∷ pci_progifs_entry 0x01 0x08 0x01 "NVMHCI"
    ∷ pci_progifs_entry 0x01 0x08 0x02 "NVM Express"
    ∷ pci_progifs_entry 0x03 0x00 0x00 "VGA Controller"
    ∷ pci_progifs_entry 0x03 0x00 0x01 "8514-Compatible Controller"
    ∷ pci_progifs_entry 0x06 0x04 0x00 "Normal Decode"
    ∷ pci_progifs_entry 0x06 0x04 0x01 "Subtractive Decode"
    ∷ pci_progifs_entry 0x06 0x08 0x00 "Transparent Mode"
    ∷ pci_progifs_entry 0x06 0x08 0x01 "Endpoint Mode"
    ∷ pci_progifs_entry 0x06 0x09 0x40 "Semi-Transparent (primary bus toward CPU)"
    ∷ pci_progifs_entry 0x06 0x09 0x80 "Semi-Transparent (secondary bus toward CPU)"
    ∷ pci_progifs_entry 0x07 0x00 0x00 "8250-Compatible (Generic XT)"
    ∷ pci_progifs_entry 0x07 0x00 0x01 "16450-Compatible"
    ∷ pci_progifs_entry 0x07 0x00 0x02 "16550-Compatible"
    ∷ pci_progifs_entry 0x07 0x00 0x03 "16650-Compatible"
    ∷ pci_progifs_entry 0x07 0x00 0x04 "16750-Compatible"
    ∷ pci_progifs_entry 0x07 0x00 0x05 "16850-Compatible"
    ∷ pci_progifs_entry 0x07 0x00 0x06 "16950-Compatible"
    ∷ pci_progifs_entry 0x07 0x01 0x00 "Standard Parallel Port"
    ∷ pci_progifs_entry 0x07 0x01 0x01 "Bi-Directional Parallel Port"
    ∷ pci_progifs_entry 0x07 0x01 0x02 "ECP 1.X Compliant Parallel Port"
    ∷ pci_progifs_entry 0x07 0x01 0x03 "IEEE 1284 Controller"
    ∷ pci_progifs_entry 0x07 0x01 0xfe "IEEE 1284 Target Device"
    ∷ pci_progifs_entry 0x07 0x03 0x00 "Generic Modem"
    ∷ pci_progifs_entry 0x07 0x03 0x01 "Hayes 16450-Compatible Interface"
    ∷ pci_progifs_entry 0x07 0x03 0x02 "Hayes 16550-Compatible Interface"
    ∷ pci_progifs_entry 0x07 0x03 0x03 "Hayes 16650-Compatible Interface"
    ∷ pci_progifs_entry 0x07 0x03 0x04 "Hayes 16750-Compatible Interface"
    ∷ pci_progifs_entry 0x08 0x00 0x00 "Generic 8259-Compatible"
    ∷ pci_progifs_entry 0x08 0x00 0x01 "ISA-Compatible"
    ∷ pci_progifs_entry 0x08 0x00 0x02 "EISA-Compatible"
    ∷ pci_progifs_entry 0x08 0x00 0x10 "I/O APIC Interrupt Controller"
    ∷ pci_progifs_entry 0x08 0x00 0x20 "I/O(x) APIC Interrupt Controller"
    ∷ pci_progifs_entry 0x08 0x01 0x00 "Generic 8237-Compatible"
    ∷ pci_progifs_entry 0x08 0x01 0x01 "ISA-Compatible"
    ∷ pci_progifs_entry 0x08 0x01 0x02 "EISA-Compatible"
    ∷ pci_progifs_entry 0x08 0x02 0x00 "Generic 8254-Compatible"
    ∷ pci_progifs_entry 0x08 0x02 0x01 "ISA-Compatible"
    ∷ pci_progifs_entry 0x08 0x02 0x02 "EISA-Compatible"
    ∷ pci_progifs_entry 0x08 0x02 0x03 "HPET"
    ∷ pci_progifs_entry 0x08 0x03 0x00 "Generic RTC"
    ∷ pci_progifs_entry 0x08 0x03 0x01 "ISA-Compatible"
    ∷ pci_progifs_entry 0x09 0x04 0x00 "Generic"
    ∷ pci_progifs_entry 0x09 0x04 0x10 "Extended"
    ∷ pci_progifs_entry 0x0c 0x00 0x00 "Generic"
    ∷ pci_progifs_entry 0x0c 0x00 0x10 "OHCI"
    ∷ pci_progifs_entry 0x0c 0x03 0x00 "UHCI Controller"
    ∷ pci_progifs_entry 0x0c 0x03 0x10 "OHCI Controller"
    ∷ pci_progifs_entry 0x0c 0x03 0x20 "EHCI (USB2) Controller"
    ∷ pci_progifs_entry 0x0c 0x03 0x30 "XHCI (USB3) Controller"
    ∷ pci_progifs_entry 0x0c 0x03 0x80 "Unspecified"
    ∷ pci_progifs_entry 0x0c 0x03 0xfe "USB Device"
    ∷ pci_progifs_entry 0x0c 0x07 0x00 "SMIC"
    ∷ pci_progifs_entry 0x0c 0x07 0x01 "Keyboard Controller Style"
    ∷ pci_progifs_entry 0x0c 0x07 0x02 "Block Transfer"
    ∷ []

abbrev pci_vendors_entry : ℕ → String → PciVendorIdentifier
pci_vendors_entry vendor_id name = record { vendor_id = vendor_id; name = name }

unfoldable pub pci_vendors : List PciVendorIdentifier
pci_vendors =
    pci_vendors_entry 0x8086 "Intel Corp."
    ∷ pci_vendors_entry 0x1022 "Advanced Micro Devices, Inc. [AMD/ATI]"
    ∷ pci_vendors_entry 0x10de "NVIDIA Corp."
    ∷ pci_vendors_entry 0x10ec "Realtek Semiconductor Co., Ltd."
    ∷ pci_vendors_entry 0x0bda "Realtek Semiconductor Corp."
    ∷ pci_vendors_entry 0x168c "Qualcomm Atheros"
    ∷ []

abbrev pub pci_unknown_identifier : String
pci_unknown_identifier = "?"

abbrev pub matches_class : PciDeviceHeader → PciClassIdentifier → Bool
matches_class pci_header entry = entry.class == pci_header.class

unfoldable pub pci_get_class_str : PciDeviceHeader → String
unfolding first_match pci_classes
pci_get_class_str pci_header =
    first_match (matches_class pci_header) (λ (e : PciClassIdentifier). e.name)
      pci_unknown_identifier pci_classes

abbrev pub matches_subclass : PciDeviceHeader → PciSublassIdentifier → Bool
matches_subclass pci_header entry =
    entry.class == pci_header.class && entry.subclass == pci_header.subclass

unfoldable pub pci_get_subclass_str : PciDeviceHeader → String
unfolding first_match pci_subclasses
pci_get_subclass_str pci_header =
    first_match (matches_subclass pci_header) (λ (e : PciSublassIdentifier). e.name)
      pci_unknown_identifier pci_subclasses

abbrev pub matches_progif : PciDeviceHeader → PciProgrammingInterfaceIdentifier → Bool
matches_progif pci_header entry =
    entry.class == pci_header.class
    && entry.subclass == pci_header.subclass
    && entry.program_if == pci_header.program_if

unfoldable pub pci_get_progif_str : PciDeviceHeader → String
unfolding first_match pci_progifs
pci_get_progif_str pci_header =
    first_match (matches_progif pci_header) (λ (e : PciProgrammingInterfaceIdentifier). e.name)
      pci_unknown_identifier pci_progifs

abbrev pub matches_vendor : PciDeviceHeader → PciVendorIdentifier → Bool
matches_vendor pci_header entry = entry.vendor_id == pci_header.vendor_id

unfoldable pub pci_get_vendor_str : PciDeviceHeader → String
unfolding first_match pci_vendors
pci_get_vendor_str pci_header =
    first_match (matches_vendor pci_header) (λ (e : PciVendorIdentifier). e.name)
      pci_unknown_identifier pci_vendors
