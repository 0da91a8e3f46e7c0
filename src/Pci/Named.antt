-- ===== src/Pci/Named.antt =====
-- The four lookups of src/kernel/x86_64/pci_id.c: the entry that fits a header is the only one.
use visual_os.Base.{◌≡◌, refl, Bool, true, arith, ◌==◌, ◌&&◌}
use visual_os.Base.Table.{apart, IsOnly, first_match-IsOnly}
use visual_os.Pci.Header.{PciDeviceHeader}
use visual_os.Pci.Ids.{
  PciClassIdentifier, PciSublassIdentifier, PciProgrammingInterfaceIdentifier, PciVendorIdentifier,
  pci_classes, pci_subclasses, pci_progifs, pci_vendors, pci_unknown_identifier, matches_class,
  matches_subclass, matches_progif, matches_vendor, pci_get_class_str, pci_get_subclass_str,
  pci_get_progif_str, pci_get_vendor_str,
}

abbrev same_class : PciClassIdentifier → PciClassIdentifier → Bool
same_class x y = x.class == y.class

classes_apart : apart same_class pci_classes ≡ true
unfolding apart pci_classes
classes_apart = refl

abbrev same_subclass : PciSublassIdentifier → PciSublassIdentifier → Bool
same_subclass x y = x.class == y.class && x.subclass == y.subclass

subclasses_apart : apart same_subclass pci_subclasses ≡ true
unfolding apart pci_subclasses
subclasses_apart = refl

abbrev same_progif : PciProgrammingInterfaceIdentifier → PciProgrammingInterfaceIdentifier → Bool
same_progif x y = x.class == y.class && x.subclass == y.subclass && x.program_if == y.program_if

progifs_apart : apart same_progif pci_progifs ≡ true
unfolding apart pci_progifs
progifs_apart = refl

abbrev same_vendor : PciVendorIdentifier → PciVendorIdentifier → Bool
same_vendor x y = x.vendor_id == y.vendor_id

vendors_apart : apart same_vendor pci_vendors ≡ true
unfolding apart pci_vendors
vendors_apart = refl

-- For every header each of the four functions returns the name of the one entry of its table with
-- the header's numbers, or "?" if the table has none: the class; class and subclass; class, subclass
-- and programming interface; the vendor.
pub pci_get_str-Names :
    (pci_header : PciDeviceHeader)
    → IsOnly
        (λ (e : PciClassIdentifier). e.class == pci_header.class)
        (λ (e : PciClassIdentifier). e.name)
        "?"
        pci_classes
        (pci_get_class_str pci_header)
      × IsOnly
          (λ (e : PciSublassIdentifier).
            e.class == pci_header.class && e.subclass == pci_header.subclass)
          (λ (e : PciSublassIdentifier). e.name)
          "?"
          pci_subclasses
          (pci_get_subclass_str pci_header)
      × IsOnly
          (λ (e : PciProgrammingInterfaceIdentifier).
            e.class == pci_header.class
            && e.subclass == pci_header.subclass
            && e.program_if == pci_header.program_if)
          (λ (e : PciProgrammingInterfaceIdentifier). e.name)
          "?"
          pci_progifs
          (pci_get_progif_str pci_header)
      × IsOnly
          (λ (e : PciVendorIdentifier). e.vendor_id == pci_header.vendor_id)
          (λ (e : PciVendorIdentifier). e.name)
          "?"
          pci_vendors
          (pci_get_vendor_str pci_header)
unfolding pci_get_class_str pci_get_subclass_str pci_get_progif_str pci_get_vendor_str
pci_get_str-Names h = (
  first_match-IsOnly (matches_class h) (λ (e : PciClassIdentifier). e.name) pci_unknown_identifier
      same_class (λ x y a b. ground arith) pci_classes classes_apart,
  first_match-IsOnly (matches_subclass h) (λ (e : PciSublassIdentifier). e.name)
      pci_unknown_identifier same_subclass (λ x y a b. ground arith) pci_subclasses
      subclasses_apart,
  first_match-IsOnly (matches_progif h) (λ (e : PciProgrammingInterfaceIdentifier). e.name)
      pci_unknown_identifier same_progif (λ x y a b. ground arith) pci_progifs progifs_apart,
  first_match-IsOnly (matches_vendor h) (λ (e : PciVendorIdentifier). e.name) pci_unknown_identifier
      same_vendor (λ x y a b. ground arith) pci_vendors vendors_apart,
)
