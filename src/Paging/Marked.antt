-- ===== src/Paging/Marked.antt =====
-- `paging_set_attribute` and `paging_set_cache`: the entries that they write, and that the processor walks as before.
use mathlib.Core.Option.{none-ne-some, some-injective}
use native.Mathlib.Decide.{ℕ_discrete}
use visual_os.Base.{
  ℕ, zero, suc, ◌+◌, ◌*◌, ◌/◌, ◌%◌, ◌^◌, ◌≤◌, ◌<◌, ◌≡◌, ◌≢◌, refl, Bool, true, false, ◌==◌, arith,
  ◌∙◌, Bool-cases, inl, inr, some, add64, mul64, for_range, for_range-suc, for_range-keeps,
}
use visual_os.Pageframe.{memory_page_size}
use visual_os.Atomic.{bt}
use visual_os.Atomic.Laws.{bts-bt_self, btr-bt_self}
use visual_os.Paging.{Paging, set_bit, paging_get_indexes}
use visual_os.Paging.EntryLaws.{indexes-digits, get_entry_address_lem}
use visual_os.Paging.Walk.{entry_target, translate, translate-enter, Path4, WellFormed}
use visual_os.Paging.SetBit.{set_bit-btx}
use visual_os.Paging.Attribute.{table_of, on_entry, on_walk, paging_set_attribute}
use visual_os.Paging.AttributeLaws.{
  Gentle, set_bit-Gentle, SameWalks, SameWalks-trans, on_entry-SameWalks, on_walk-SameWalks,
  walks-SameWalks, WellFormed-SameWalks,
}

-- The attribute of an entry.
abbrev pub marked : (ℕ → ℕ → ℕ) → (table index attribute : ℕ) → Bool
marked tables table index attribute = bt (tables table index) attribute

-- All four entries on a walk have the attribute `enabled`.
pub record AllMarked (tables : ℕ → ℕ → ℕ) (l4 l3 l2 l1 address attribute : ℕ) (enabled : Bool)
    : Type 0 where
  pub at4 : marked tables l4 (address / 2 ^ 39 % 512) attribute ≡ enabled
  pub at3 : marked tables l3 (address / 2 ^ 30 % 512) attribute ≡ enabled
  pub at2 : marked tables l2 (address / 2 ^ 21 % 512) attribute ≡ enabled
  pub at1 : marked tables l1 (address / 2 ^ 12 % 512) attribute ≡ enabled

set_bit-bt : (n bit : ℕ) (value : Bool) → bit < 64 → bt (set_bit n bit value) bit ≡ value
set_bit-bt n bit true l = rw (set_bit-btx n bit true l) (bts-bt_self n bit)
set_bit-bt n bit false l = rw (set_bit-btx n bit false l) (btr-bt_self n bit)

target-table : (entry table : ℕ) → entry_target entry ≡ some table → table_of entry ≡ table
unfolding entry_target
target-table entry table e = elim (Bool-cases (entry % 2 == 1)) [
  | inl on ↦
      let same : entry / 2 ^ 12 % 2 ^ 40 * 2 ^ 12 ≡ table = some-injective _ _ (rw on at e) in
      omega (arith, get_entry_address_lem entry, same)
  | inr off ↦ absurd (none-ne-some table (rw off at e))
]

module _ (attribute : ℕ) (enabled : Bool) (bounded : attribute < 12) (not_present : 1 ≤ attribute)
    (not_large : attribute ≢ 7) where
  abbrev change : ℕ → ℕ
  change entry = set_bit entry attribute enabled

  gentle : Gentle change
  gentle = set_bit-Gentle attribute enabled not_present bounded not_large

  -- What has the attribute keeps it.
  record Keeps (tables tables' : ℕ → ℕ → ℕ) : Type 0 where
    keeps :
        (t i : ℕ) → marked tables t i attribute ≡ enabled → marked tables' t i attribute ≡ enabled

  Keeps-trans : (x y z : ℕ → ℕ → ℕ) → Keeps x y → Keeps y z → Keeps x z
  Keeps-trans x y z a b = record { keeps = λ t i h. b.keeps t i (a.keeps t i h) }

  on_entry-own :
      (table index : ℕ) (tables : ℕ → ℕ → ℕ)
      → marked (on_entry change table index tables) table index attribute ≡ enabled
  on_entry-own table index tables =
      ground (arith, set_bit-bt (tables table index) attribute enabled (omega arith))

  on_entry-Keeps :
      (table index : ℕ) (tables : ℕ → ℕ → ℕ) → Keeps tables (on_entry change table index tables)
  on_entry-Keeps table index tables = record {
    keeps =
        λ t i h. ground (arith, set_bit-bt (tables table index) attribute enabled (omega arith));
  }

  on_walk-Keeps : (l4 a : ℕ) (tables : ℕ → ℕ → ℕ) → Keeps tables (on_walk change change l4 a tables)
  unfolding on_walk
  on_walk-Keeps l4 a tables = Keeps-trans _ _ _ (on_entry-Keeps _ _ _) (
      Keeps-trans _ _ _ (on_entry-Keeps _ _ _)
        (Keeps-trans _ _ _ (on_entry-Keeps _ _ _) (on_entry-Keeps _ _ _)))

  module _ (l4 a p : ℕ) (tables : ℕ → ℕ → ℕ) (path : Path4 tables l4 a p) where
    abbrev t4 : ℕ → ℕ → ℕ
    t4 = on_entry change l4 (a / 2 ^ 39 % 512) tables

    abbrev t3 : ℕ → ℕ → ℕ
    t3 = on_entry change path.l3 (a / 2 ^ 30 % 512) t4

    abbrev t2 : ℕ → ℕ → ℕ
    t2 = on_entry change path.l2 (a / 2 ^ 21 % 512) t3

    abbrev t1 : ℕ → ℕ → ℕ
    t1 = on_entry change path.l1 (a / 2 ^ 12 % 512) t2

    s4 : SameWalks tables t4
    s4 = on_entry-SameWalks change _ _ _ gentle

    s3 : SameWalks tables t3
    s3 = SameWalks-trans _ _ _ s4 (on_entry-SameWalks change _ _ _ gentle)

    s2 : SameWalks tables t2
    s2 = SameWalks-trans _ _ _ s3 (on_entry-SameWalks change _ _ _ gentle)

    e3 : table_of (t4 l4 (a / 2 ^ 39 % 512)) ≡ path.l3
    e3 = target-table _ _ (s4.enters _ _ ∙ path.at4)

    e2 : table_of (t3 path.l3 (a / 2 ^ 30 % 512)) ≡ path.l2
    e2 = target-table _ _ (s3.enters _ _ ∙ path.at3)

    e1 : table_of (t2 path.l2 (a / 2 ^ 21 % 512)) ≡ path.l1
    e1 = target-table _ _ (s2.enters _ _ ∙ path.at2)

    -- The entries that the code finds are those of the walk of the processor.
    on_walk-path : on_walk change change l4 a tables ≡ t1
    unfolding on_walk
    on_walk-path =
        let i4 : (paging_get_indexes a).l4_i ≡ a / 2 ^ 39 % 512 =
          omega (arith, (indexes-digits a).3) in
        let i3 : (paging_get_indexes a).l3_i ≡ a / 2 ^ 30 % 512 =
          omega (arith, (indexes-digits a).2) in
        let i2 : (paging_get_indexes a).l2_i ≡ a / 2 ^ 21 % 512 =
          omega (arith, (indexes-digits a).1) in
        let i1 : (paging_get_indexes a).l1_i ≡ a / 2 ^ 12 % 512 =
          omega (arith, (indexes-digits a).0) in
        rw (i4, i3, i2, i1, e3, e2, e1) refl

    k1 : Keeps t2 t1
    k1 = on_entry-Keeps path.l1 (a / 2 ^ 12 % 512) t2

    k2 : Keeps t3 t1
    k2 = Keeps-trans t3 t2 t1 (on_entry-Keeps path.l2 (a / 2 ^ 21 % 512) t3) k1

    k3 : Keeps t4 t1
    k3 = Keeps-trans t4 t3 t1 (on_entry-Keeps path.l3 (a / 2 ^ 30 % 512) t4) k2

    on_walk-AllMarked :
        AllMarked (on_walk change change l4 a tables) l4 path.l3 path.l2 path.l1 a attribute enabled
    on_walk-AllMarked = rw on_walk-path (record {
      at4 = k3.keeps l4 (a / 2 ^ 39 % 512) (on_entry-own l4 (a / 2 ^ 39 % 512) tables);
      at3 = k2.keeps path.l3 (a / 2 ^ 30 % 512) (on_entry-own path.l3 (a / 2 ^ 30 % 512) t4);
      at2 = k1.keeps path.l2 (a / 2 ^ 21 % 512) (on_entry-own path.l2 (a / 2 ^ 21 % 512) t3);
      at1 = on_entry-own path.l1 (a / 2 ^ 12 % 512) t2;
    })

  AllMarked-Keeps :
      (tables tables' : ℕ → ℕ → ℕ) (l4 l3 l2 l1 a : ℕ)
      → Keeps tables tables'
      → AllMarked tables l4 l3 l2 l1 a attribute enabled
      → AllMarked tables' l4 l3 l2 l1 a attribute enabled
  AllMarked-Keeps tables tables' l4 l3 l2 l1 a k m = record {
    at4 = k.keeps l4 (a / 2 ^ 39 % 512) m.at4;
    at3 = k.keeps l3 (a / 2 ^ 30 % 512) m.at3;
    at2 = k.keeps l2 (a / 2 ^ 21 % 512) m.at2;
    at1 = k.keeps l1 (a / 2 ^ 12 % 512) m.at1;
  }

  module _ (l4 : ℕ) (address : ℕ → ℕ) where
    abbrev body : ℕ → (ℕ → ℕ → ℕ) → ℕ → ℕ → ℕ
    body i = on_walk change change l4 (address i)

    walks-Keeps :
        (rounds i : ℕ) (tables : ℕ → ℕ → ℕ) → Keeps tables (for_range body rounds i tables)
    walks-Keeps rounds i tables =
        for_range-keeps body (λ now. Keeps tables now)
          (λ j now k. Keeps-trans tables now _ k (on_walk-Keeps l4 (address j) now)) rounds i tables
          (record { keeps = λ t j h. h })

    -- A walk is the same on tables on which every walk is the same.
    path-SameWalks :
        (tables tables' : ℕ → ℕ → ℕ) (a p : ℕ)
        → SameWalks tables tables'
        → Path4 tables l4 a p
        → Path4 tables' l4 a p
    path-SameWalks tables tables' a p same path = record {
      l3 = path.l3;
      l2 = path.l2;
      l1 = path.l1;
      page = path.page;
      at4 = same.enters l4 (a / 2 ^ 39 % 512) ∙ path.at4;
      at3 = same.enters path.l3 (a / 2 ^ 30 % 512) ∙ path.at3;
      at2 = same.enters path.l2 (a / 2 ^ 21 % 512) ∙ path.at2;
      at1 = same.enters path.l1 (a / 2 ^ 12 % 512) ∙ path.at1;
      sum = path.sum;
    }

    walks-AllMarked :
        (rounds i j : ℕ) (tables : ℕ → ℕ → ℕ) (p : ℕ) (path : Path4 tables l4 (address j) p)
        → i ≤ j
        → j < i + rounds
        → AllMarked
            (for_range body rounds i tables)
            l4
            path.l3
            path.l2
            path.l1
            (address j)
            attribute
            enabled
    unfolding path-SameWalks
    walks-AllMarked zero i j tables p path a b = absurd (omega arith)
    walks-AllMarked (suc rounds) i j tables p path a b =
        let same : SameWalks tables (body i tables) =
          on_walk-SameWalks change change l4 (address i) tables gentle gentle in
        elim (ℕ_discrete j i) [
          | yes e ↦
              rw (for_range-suc body rounds i tables, ← e)
                (AllMarked-Keeps (body j tables) (for_range body rounds (j + 1) (body j tables)) l4
                  path.l3 path.l2 path.l1 (address j) (walks-Keeps rounds (j + 1) (body j tables))
                  (on_walk-AllMarked l4 (address j) p tables path))
          | no ne ↦ rw (for_range-suc body rounds i tables) (
              walks-AllMarked rounds (i + 1) j (body i tables) p
                (path-SameWalks tables (body i tables) (address j) p same path) (omega arith)
                (omega arith))
        ]

-- What `paging_set_attribute` leaves.
pub record Attributed (level : ℕ → ℕ) (s t : Paging) (l4 virtual_address pages attribute : ℕ)
    (enabled : Bool) : Type 0 where
  pub formed : WellFormed level t
  pub walks : (root a : ℕ) → translate t.tables root a ≡ translate s.tables root a
  pub on :
      (i p : ℕ)
      → i < pages
      → (path : Path4 s.tables l4 (add64 virtual_address (mul64 i memory_page_size)) p)
      → AllMarked t.tables l4 path.l3 path.l2 path.l1
          (add64 virtual_address (mul64 i memory_page_size))
          attribute
          enabled

-- For tables of the kernel's shape and an attribute of the bits 1 to 11 but 7, that of large pages:
-- `paging_set_attribute` leaves every translation and the shape of the tables as they were, and the
-- entries of all four levels on the walk to each page of the range that is mapped have the attribute
-- as asked.
pub paging_set_attribute-Attributed :
    (level : ℕ → ℕ) (s : Paging) (l4 virtual_address pages attribute : ℕ) (enabled : Bool)
    → WellFormed level s
    → 1 ≤ attribute
    → attribute < 12
    → attribute ≢ 7
    → Attributed level s
        (paging_set_attribute l4 virtual_address pages attribute enabled s)
        l4
        virtual_address
        pages
        attribute
        enabled
unfolding paging_set_attribute
paging_set_attribute-Attributed level s l4 virtual_address pages attribute enabled w low high
      other =
    let address : ℕ → ℕ = λ i. add64 virtual_address (mul64 i memory_page_size) in
    let change : ℕ → ℕ = λ entry. set_bit entry attribute enabled in
    let gentle : Gentle change = set_bit-Gentle attribute enabled low high other in
    let same = walks-SameWalks change change l4 address pages 0 s.tables gentle gentle in
    record {
      formed = WellFormed-SameWalks level s _ w same;
      walks = λ root a. translate-enter s.tables _ same.enters root a;
      on = λ i p l path.
          walks-AllMarked attribute enabled high low other l4 address pages 0 i s.tables p path
            (omega arith) (omega arith);
    }
