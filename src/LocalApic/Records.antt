-- ===== src/LocalApic/Records.antt =====
-- madt.c: what the records of a MADT say, apart from the loop that reads them, and what one record
-- does to the information and to the page tables.
use visual_os.Base.{
  ℕ, ◌+◌, ◌<◌, ◌≤◌, ◌≡◌, ◌⊎◌, refl, Bool, true, false, arith, ◌==◌, ◌^◌, ltb, lt→ltb, length,
  if◌then◌else◌, inl, inr, Bool-cases, List, [], ◌∷◌, add64, update, ==_iff,
}
use visual_os.Base.Libc.{Libc}
use visual_os.Base.Run.{Run, ok, spins, out_of_fuel, overruns, Cmd, pure, and_then, modify, ◌>>◌}
use visual_os.Pageframe.{pageframe_reserve}
use visual_os.Paging.{Paging, in_pageframe}
use visual_os.Paging.Attribute.{paging_set_writable}
use visual_os.Paging.Regions.{paging_identity_map}
use visual_os.LocalApic.Madt.{
  Madt, MadtMemory, in_paging, MadtInformation, madt_type_local_processor, madt_type_ioapic,
  madt_type_interrupt_source_override, madt_type_nonmaskable_interrupt,
  madt_type_local_apic_address_override, madt_header_size, map_registers, add_processor, add_ioapic,
  add_iso, add_nmi, read_record, madt_max_processors, madt_max_ioapics, madt_max_isos,
  madt_max_nmis,
}

module _ (memory : MadtMemory) where
  -- The records of a type, in their order.
  abbrev pub of_type : (type : ℕ) → List ℕ → List ℕ
  of_type type [] = []
  of_type type (a ∷ rest) =
      if memory.byte a == type then a ∷ of_type type rest else of_type type rest

  -- The records from offset `t` on are those at the addresses: none has length 0, and they reach
  -- the end of the table, the last of them possibly further.
  abbrev pub IsTable : (madt size t : ℕ) → List ℕ → Type 0
  IsTable madt size t [] = size ≤ t
  IsTable madt size t (a ∷ rest) =
      (a ≡ madt + madt_header_size + t)
      × (t < size)
      × (0 < memory.byte (a + 1))
      × (memory.byte (a + 1) < 256)
      × IsTable madt size (t + memory.byte (a + 1)) rest

  -- The address of the local APIC: that of the last override, if there is one.
  abbrev pub last_override : List ℕ → ℕ → ℕ
  last_override [] local_apic_ptr = local_apic_ptr
  last_override (a ∷ rest) local_apic_ptr = last_override rest (
      if memory.byte a == madt_type_local_apic_address_override
      then memory.word64 (a + 4)
      else local_apic_ptr)

-- The records of a list behind those of before.
abbrev pub append_to : List ℕ → (ℕ → ℕ) × ℕ → (ℕ → ℕ) × ℕ
append_to [] (f, n) = (f, n)
append_to (a ∷ rest) (f, n) = append_to rest (update f n a, add64 n 1)

module _ (memory : MadtMemory) where
  abbrev pub informed : List ℕ → MadtInformation → MadtInformation
  informed rs i =
      let p =
        append_to (of_type memory madt_type_local_processor rs) (i.processors, i.processors_num) in
      let c = append_to (of_type memory madt_type_ioapic rs) (i.ioapics, i.ioapics_num) in
      let o =
        append_to (of_type memory madt_type_interrupt_source_override rs) (i.isos, i.isos_num) in
      let n = append_to (of_type memory madt_type_nonmaskable_interrupt rs) (i.nmis, i.nmis_num) in
      record i {
        processors = p.0;
        processors_num = p.1;
        ioapics = c.0;
        ioapics_num = c.1;
        isos = o.0;
        isos_num = o.1;
        nmis = n.0;
        nmis_num = n.1;
      }

-- One of the five types, or none of them.
abbrev Kinds : ℕ → Type 0
Kinds b =
    (b ≡ 0)
    ⊎ (b ≡ 1)
    ⊎ (b ≡ 2)
    ⊎ (b ≡ 4)
    ⊎ (b ≡ 5)
    ⊎ (((b == 0) ≡ false)
        × ((b == 1) ≡ false)
        × ((b == 2) ≡ false)
        × ((b == 4) ≡ false)
        × ((b == 5) ≡ false))

kinds : (b : ℕ) → Kinds b
kinds b = elim (Bool-cases (b == 0)) [
  | inl e ↦ inl ((==_iff b 0).0 e)
  | inr n0 ↦ elim (Bool-cases (b == 1)) [
    | inl e ↦ inr (inl ((==_iff b 1).0 e))
    | inr n1 ↦ elim (Bool-cases (b == 2)) [
      | inl e ↦ inr (inr (inl ((==_iff b 2).0 e)))
      | inr n2 ↦ elim (Bool-cases (b == 4)) [
        | inl e ↦ inr (inr (inr (inl ((==_iff b 4).0 e))))
        | inr n4 ↦ elim (Bool-cases (b == 5)) [
          | inl e ↦ inr (inr (inr (inr (inl ((==_iff b 5).0 e)))))
          | inr n5 ↦ inr (inr (inr (inr (inr (n0, n1, n2, n4, n5)))))
        ]
      ]
    ]
  ]
]

module _ (memory : MadtMemory) where
  pub informed-cons :
      (a : ℕ) (rest : List ℕ) (i : MadtInformation)
      → informed memory (a ∷ rest) i ≡ informed memory rest (informed memory (a ∷ []) i)
  informed-cons a rest i = elim (kinds (memory.byte a)) [
    | inl e ↦ rw e refl
    | inr (inl e) ↦ rw e refl
    | inr (inr (inl e)) ↦ rw e refl
    | inr (inr (inr (inl e))) ↦ rw e refl
    | inr (inr (inr (inr (inl e)))) ↦ rw e refl
    | inr (inr (inr (inr (inr (n0, n1, n2, n4, n5))))) ↦ rw (n0, n1, n2, n4) refl
  ]

module _ (memory : MadtMemory) where
  -- The records of each kind fit behind those of before.
  abbrev pub HasRoom : List ℕ → MadtInformation → Type 0
  HasRoom rs i =
      (i.processors_num + length (of_type memory madt_type_local_processor rs)
        ≤ madt_max_processors)
      × (i.ioapics_num + length (of_type memory madt_type_ioapic rs) ≤ madt_max_ioapics)
      × (i.isos_num + length (of_type memory madt_type_interrupt_source_override rs)
          ≤ madt_max_isos)
      × (i.nmis_num + length (of_type memory madt_type_nonmaskable_interrupt rs) ≤ madt_max_nmis)

-- A record of the kind has a place.
pub room_of :
    (is_kind : Bool) (a n max : ℕ) (rest : List ℕ)
    → is_kind ≡ true
    → n + length (if is_kind then a ∷ rest else rest) ≤ max
    → ltb n max ≡ true
room_of true a n max rest e room = lt→ltb n max (omega arith)
room_of false a n max rest e room = absurd (ground (arith, e))

-- What is behind a record still fits, once the record is kept.
room_behind :
    (is_kind : Bool) (a n max : ℕ) (f : ℕ → ℕ) (rest : List ℕ)
    → max < 2 ^ 63
    → n + length (if is_kind then a ∷ rest else rest) ≤ max
    → (append_to (if is_kind then a ∷ [] else []) (f, n)).1 + length rest ≤ max
room_behind true a n max f rest small room = omega arith
room_behind false a n max f rest small room = room

module _ (memory : MadtMemory) where
  pub HasRoom-step :
      (a : ℕ) (rest : List ℕ) (i : MadtInformation)
      → HasRoom memory (a ∷ rest) i
      → HasRoom memory rest (informed memory (a ∷ []) i)
  HasRoom-step a rest i (processors, ioapics, isos, nmis) = (
    room_behind (memory.byte a == 0) a _ _ i.processors _ (omega arith) processors,
    room_behind (memory.byte a == 1) a _ _ i.ioapics _ (omega arith) ioapics,
    room_behind (memory.byte a == 2) a _ _ i.isos _ (omega arith) isos,
    room_behind (memory.byte a == 4) a _ _ i.nmis _ (omega arith) nmis,
  )

-- What is left of a run on the page tables.
abbrev pub keeping : {A : Type 0} → A → MadtInformation → Madt → Run Paging (Unit {0}) → Run Madt A
keeping v i s (ok u t) = ok v (record s { paging = t; information = i })
keeping v i s spins = spins
keeping v i s out_of_fuel = out_of_fuel
keeping v i s overruns = overruns

abbrev pub in_paging_run : Madt → Run Paging (Unit {0}) → Run Madt (Unit {0})
in_paging_run s r = elim r [
  | ok a t ↦ ok a (record s { paging = t })
  | spins ↦ spins
  | out_of_fuel ↦ out_of_fuel
  | overruns ↦ overruns
]

pub keeping-same :
    {A : Type 0} (v : A) (i j : MadtInformation) (s : Madt) (r : Run Paging (Unit {0}))
    → keeping v i (record s { information = j }) r ≡ keeping v i s r
keeping-same v i j s (ok u t) = refl
keeping-same v i j s spins = refl
keeping-same v i j s out_of_fuel = refl
keeping-same v i j s overruns = refl

pub keeping-frame :
    {A : Type 0} (v : A) (i j : MadtInformation) (s : Madt) (t : Paging) (r : Run Paging (Unit {0}))
    → keeping v i (record s { paging = t; information = j }) r ≡ keeping v i s r
keeping-frame v i j s t (ok u p) = refl
keeping-frame v i j s t spins = refl
keeping-frame v i j s t out_of_fuel = refl
keeping-frame v i j s t overruns = refl

module _ (libc : Libc) where
  abbrev pub map_page : ℕ → Cmd Paging (Unit {0})
  map_page ptr =
      in_pageframe (pageframe_reserve ptr 1)
      >> paging_identity_map libc ptr 1
      >> modify (paging_set_writable ptr 1)

  pub map_registers-keeping :
      (ptr : ℕ) (s : Madt)
      → map_registers libc ptr s ≡ keeping tt s.information s (map_page ptr s.paging)
  unfolding map_registers
  map_registers-keeping ptr s = reserved (in_pageframe (pageframe_reserve ptr 1) s.paging)
    where
      mapped :
          (r : Run Paging (Unit {0}))
          → and_then (in_paging_run s r) (λ u. in_paging (modify (paging_set_writable ptr 1)))
            ≡ keeping tt s.information s (and_then r (λ u. modify (paging_set_writable ptr 1)))
      mapped (ok u t) = refl
      mapped spins = refl
      mapped out_of_fuel = refl
      mapped overruns = refl

      reserved :
          (r : Run Paging (Unit {0}))
          → and_then (in_paging_run s r) (λ u.
            in_paging (paging_identity_map libc ptr 1)
            >> in_paging (modify (paging_set_writable ptr 1)))
            ≡ keeping tt s.information s (
                and_then
                  (and_then r (λ u. paging_identity_map libc ptr 1))
                  (λ u. modify (paging_set_writable ptr 1)))
      reserved (ok u t) = mapped (paging_identity_map libc ptr 1 t)
      reserved spins = refl
      reserved out_of_fuel = refl
      reserved overruns = refl

module _ (libc : Libc) (memory : MadtMemory) where
  abbrev pub map_ioapics : List ℕ → Cmd Paging (Unit {0})
  map_ioapics [] = pure tt
  map_ioapics (a ∷ rest) =
      if memory.byte a == madt_type_ioapic
      then map_page libc (memory.word32 (a + 4)) >> map_ioapics rest
      else map_ioapics rest

  pub read_other :
      (a p : ℕ) (rest : List ℕ) (s : Madt)
      → (memory.byte a == 1) ≡ false
      → HasRoom memory (a ∷ rest) s.information
      → read_record libc memory a p s
        ≡ ok
            (if memory.byte a == madt_type_local_apic_address_override
              then memory.word64 (a + 4)
              else p)
            (record s { information = informed memory (a ∷ []) s.information })
  unfolding read_record add_processor add_ioapic add_iso add_nmi
  read_other a p rest s ne (processors, ioapics, isos, nmis) = elim (kinds (memory.byte a)) [
    | inl e ↦
        let room = room_of (memory.byte a == 0) a _ _ _ ((==_iff _ _).1 e) processors in
        rw (e, add_processor, room) refl
    | inr (inl e) ↦ absurd (ground (arith, e))
    | inr (inr (inl e)) ↦
        let room = room_of (memory.byte a == 2) a _ _ _ ((==_iff _ _).1 e) isos in
        rw (e, add_iso, room) refl
    | inr (inr (inr (inl e))) ↦
        let room = room_of (memory.byte a == 4) a _ _ _ ((==_iff _ _).1 e) nmis in
        rw (e, add_nmi, room) refl
    | inr (inr (inr (inr (inl e)))) ↦ rw e refl
    | inr (inr (inr (inr (inr (n0, n1, n2, n4, n5))))) ↦ rw (n0, n1, n2, n4, n5) refl
  ]
