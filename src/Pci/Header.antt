-- ===== src/Pci/Header.antt =====
-- src/kernel/x86_64/pci.h: the fields of a header in the configuration space that the kernel reads.
use visual_os.Base.{ℕ}

pub record PciDeviceHeader : Type 0 where
  pub vendor_id : ℕ
  pub device_id : ℕ
  pub program_if : ℕ
  pub subclass : ℕ
  pub class : ℕ
