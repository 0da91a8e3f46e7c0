-- ===== src/LocalApic/Informed.antt =====
-- madt.c: the loop over the records and madt_init against what the records of the table say.
use visual_os.Base.{
  ℕ, zero, suc, ◌+◌, ◌-◌, ◌<◌, ◌≤◌, ◌≡◌, ◌^◌, refl, true, arith, ◌==◌, ◌∙◌, inl, inr, Bool-cases,
  List, [], ◌∷◌, length, add64, sub64, ltb, update, lt→ltb, le→ltb, ==_iff,
}
use mathlib.Core.Path.{subst}
use visual_os.Base.Libc.{Libc}
use visual_os.Base.Run.{
  Run, ok, spins, out_of_fuel, overruns, Cmd, pure, and_then, modify, ◌>>=◌, ◌>>◌, then_ok, then_eq,
}
use visual_os.Symbols.Table.{pageframe_reserve_size}
use visual_os.Paging.{Paging, in_pageframe}
use visual_os.LocalApic.Madt.{
  Madt, MadtMemory, inform, MadtInformation, madt_header_size, map_registers, length_offset,
  local_apic_address_offset, madt_init, madt_max_ioapics, add_ioapic, read_record, records_loop,
}
use visual_os.LocalApic.Records.{
  IsTable, last_override, informed, map_page, map_ioapics, keeping, in_paging_run,
  map_registers-keeping, keeping-same, keeping-frame, informed-cons, read_other, HasRoom,
  HasRoom-step, room_of,
}

-- The information behind a further I/O APIC.
abbrev one_ioapic : ℕ → MadtInformation → MadtInformation
one_ioapic a i = record i {
  ioapics = update i.ioapics i.ioapics_num a;
  ioapics_num = add64 i.ioapics_num 1;
}

module _ (libc : Libc) (memory : MadtMemory) where
  add_ioapic_lem :
      (a : ℕ) (s : Madt)
      → ltb s.information.ioapics_num madt_max_ioapics ≡ true
      → add_ioapic libc a s ≡ ok tt (record s { information = one_ioapic a s.information })
  unfolding add_ioapic
  add_ioapic_lem a s room = rw (add_ioapic, room) refl

  -- What a controller's record does, before what follows it.
  after_ioapic :
      (a p : ℕ) (s : Madt) (v : ℕ) (i : MadtInformation) (k : ℕ → Cmd Madt ℕ)
      (rest : Cmd Paging (Unit {0}))
      → ltb s.information.ioapics_num madt_max_ioapics ≡ true
      → ((t : Paging)
          → k p (record s { paging = t; information = one_ioapic a s.information })
            ≡ keeping v i s (rest t))
      → (r : Run Paging (Unit {0}))
      → and_then
          (and_then
            (and_then (keeping tt s.information s r) (λ u. add_ioapic libc a))
            (λ u. pure p))
          k
        ≡ keeping v i s (and_then r (λ u. rest))
  after_ioapic a p s v i k rest room ih (ok u t) =
      rw (add_ioapic_lem a (record s { paging = t; information = s.information }) room) (ih t)
  after_ioapic a p s v i k rest room ih spins = refl
  after_ioapic a p s v i k rest room ih out_of_fuel = refl
  after_ioapic a p s v i k rest room ih overruns = refl

  read_ioapic :
      (a p : ℕ) (s : Madt)
      → (memory.byte a == 1) ≡ true
      → read_record libc memory a p s
        ≡ and_then
            (and_then
              (keeping tt s.information s (map_page libc (memory.word32 (a + 4)) s.paging))
              (λ u. add_ioapic libc a))
            (λ u. pure p)
  unfolding read_record
  read_ioapic a p s e =
      let one : memory.byte a ≡ 1 = (==_iff _ _).0 e in
      rw (one, ← map_registers-keeping libc (memory.word32 (a + 4)) s) refl

  records_loop-end :
      (fuel madt size t p : ℕ) (s : Madt)
      → size ≤ t
      → records_loop libc (suc fuel) memory madt size t p s ≡ ok p s
  unfolding records_loop
  records_loop-end fuel madt size t p s last = rw (le→ltb t size last, records_loop) refl

  with_ioapic :
      (a p : ℕ) (rest : List ℕ) (s : Madt)
      → memory.byte a ≡ 1
      → keeping
          (last_override memory rest p)
          (informed memory rest (one_ioapic a s.information))
          s
          (and_then
            (map_page libc (memory.word32 (a + 4)) s.paging)
            (λ u. map_ioapics libc memory rest))
        ≡ keeping
            (last_override memory (a ∷ rest) p)
            (informed memory (a ∷ rest) s.information)
            s
            (map_ioapics libc memory (a ∷ rest) s.paging)
  with_ioapic a p rest s one = rw one refl

  informed-ioapic :
      (a : ℕ) (i : MadtInformation)
      → memory.byte a ≡ 1
      → informed memory (a ∷ []) i ≡ one_ioapic a i
  informed-ioapic a i one = rw one refl

  kept_ioapic :
      (a : ℕ) (rest : List ℕ) (i : MadtInformation)
      → memory.byte a ≡ 1
      → HasRoom memory rest (informed memory (a ∷ []) i)
      → HasRoom memory rest (one_ioapic a i)
  kept_ioapic a rest i one room = subst (λ k. HasRoom memory rest k) (informed-ioapic a i one) room

  -- A step of the loop: the record at the offset, and the rest from behind it on.
  step_loop :
      (fuel madt size t p a : ℕ) (s : Madt)
      → size < 2 ^ 63
      → t < size
      → a ≡ madt + madt_header_size + t
      → memory.byte (a + 1) < 256
      → records_loop libc (suc fuel) memory madt size t p s
        ≡ and_then
            (read_record libc memory a p s)
            (λ ptr. records_loop libc fuel memory madt size (t + memory.byte (a + 1)) ptr)
  unfolding records_loop
  step_loop fuel madt size t p a s small more e byte =
      let next : add64 t (memory.byte (a + 1)) ≡ t + memory.byte (a + 1) = omega arith in
      rw (lt→ltb t size more, records_loop, ← e, next) refl

  loop-informed :
      (fuel madt size t p : ℕ) (rs : List ℕ) (s : Madt)
      → size < 2 ^ 63
      → length rs < fuel
      → IsTable memory madt size t rs
      → HasRoom memory rs s.information
      → records_loop libc fuel memory madt size t p s
        ≡ keeping
            (last_override memory rs p)
            (informed memory rs s.information)
            s
            (map_ioapics libc memory rs s.paging)
  loop-informed zero madt size t p rs s small lt table room = absurd (omega arith)
  loop-informed (suc fuel) madt size t p [] s small lt table room =
      records_loop-end fuel madt size t p s table
  loop-informed (suc fuel) madt size t p (a ∷ rest) s small lt (e, more, some, byte, table) room =
      let behind = HasRoom-step memory a rest s.information room in
      step_loop fuel madt size t p a s small more e byte ∙ elim (Bool-cases (memory.byte a == 1)) [
        | inl is_ioapic ↦
            let one : memory.byte a ≡ 1 = (==_iff _ _).0 is_ioapic in
            let place = room_of (memory.byte a == 1) a _ _ _ is_ioapic room.1 in
            let kept : HasRoom memory rest (one_ioapic a s.information) =
              kept_ioapic a rest s.information one behind in
            then_eq (λ ptr. records_loop libc fuel memory madt size (t + memory.byte (a + 1)) ptr)
              (read_ioapic a p s is_ioapic)
            ∙ after_ioapic a p s (last_override memory rest p)
                (informed memory rest (one_ioapic a s.information))
                (λ ptr. records_loop libc fuel memory madt size (t + memory.byte (a + 1)) ptr)
                (map_ioapics libc memory rest) place
                (λ u.
                  loop-informed fuel madt size (t + memory.byte (a + 1)) p rest
                    (record s { paging = u; information = one_ioapic a s.information }) small
                    (omega arith) table kept
                  ∙ keeping-frame _ _ (one_ioapic a s.information) s u _)
                (map_page libc (memory.word32 (a + 4)) s.paging)
            ∙ with_ioapic a p rest s one
        | inr other ↦
            then_ok _ (read_other libc memory a p rest s other room)
            ∙ loop-informed fuel madt size (t + memory.byte (a + 1)) _ rest _ small (omega arith)
                table behind
            ∙ keeping-same _ _ (informed memory (a ∷ []) s.information) s _
            ∙ rw (informed-cons memory a rest s.information, other) refl
      ]

  length-IsTable :
      (madt size t : ℕ) (rs : List ℕ) → IsTable memory madt size t rs → length rs ≤ size - t
  length-IsTable madt size t [] table = omega arith
  length-IsTable madt size t (a ∷ rest) (e, more, some, byte, table) =
      let below = length-IsTable madt size (t + memory.byte (a + 1)) rest table in
      omega (arith, below)

  -- What madt_init does to the page tables: the pages of the table are reserved, and the registers of
  -- each I/O APIC, in the order of the table, and of the local APIC are mapped.
  abbrev pub map_controllers : (madt : ℕ) → List ℕ → Cmd Paging (Unit {0})
  map_controllers madt rs =
      in_pageframe (pageframe_reserve_size madt (memory.word32 (madt + length_offset)))
      >> map_ioapics libc memory rs
      >> map_page libc (last_override memory rs (memory.word32 (madt + local_apic_address_offset)))

  -- The table's information after madt_init.
  abbrev pub informed_of : (madt : ℕ) → List ℕ → MadtInformation → MadtInformation
  informed_of madt rs i = record (informed memory rs i) {
    local_apic_ptr = last_override memory rs (memory.word32 (madt + local_apic_address_offset));
  }

  -- The end of madt_init: the registers of the local APIC are mapped, and its address is kept.
  abbrev last_step : ℕ → Cmd Madt (Unit {0})
  last_step ptr =
      map_registers libc ptr >> modify (inform libc (λ i. record i { local_apic_ptr = ptr }))

  last_step-keeping :
      (ptr : ℕ) (i : MadtInformation) (s : Madt) (r : Run Paging (Unit {0}))
      → and_then (keeping ptr i s r) last_step
        ≡ keeping tt (record i { local_apic_ptr = ptr }) s (and_then r (λ u. map_page libc ptr))
  last_step-keeping ptr i s (ok u t) =
      then_eq _ (map_registers-keeping libc ptr (record s { paging = t; information = i }))
      ∙ mapped (map_page libc ptr t)
    where
      mapped :
          (r : Run Paging (Unit {0}))
          → and_then
              (keeping tt i (record s { paging = t; information = i }) r)
              (λ u. modify (inform libc (λ i. record i { local_apic_ptr = ptr })))
            ≡ keeping tt (record i { local_apic_ptr = ptr }) s r
      mapped (ok u p) = refl
      mapped spins = refl
      mapped out_of_fuel = refl
      mapped overruns = refl
  last_step-keeping ptr i s spins = refl
  last_step-keeping ptr i s out_of_fuel = refl
  last_step-keeping ptr i s overruns = refl

  -- The loop and what follows it, once the pages of the table are reserved.
  after_reserve :
      (fuel madt size p : ℕ) (rs : List ℕ) (s : Madt)
      → size < 2 ^ 63
      → length rs < fuel
      → IsTable memory madt size 0 rs
      → HasRoom memory rs s.information
      → (r : Run Paging (Unit {0}))
      → and_then
          (in_paging_run s r)
          (λ u. records_loop libc fuel memory madt size 0 p >>= last_step)
        ≡ keeping tt
            (record (informed memory rs s.information) {
              local_apic_ptr = last_override memory rs p;
            })
            s
            (and_then
              (and_then r (λ u. map_ioapics libc memory rs))
              (λ u. map_page libc (last_override memory rs p)))
  after_reserve fuel madt size p rs s small lt table room (ok u t) =
      then_eq last_step (
        loop-informed fuel madt size 0 p rs (record s { paging = t }) small lt table room
        ∙ keeping-same _ _ s.information s _)
      ∙ last_step-keeping (last_override memory rs p) (informed memory rs s.information) s
          (map_ioapics libc memory rs t)
  after_reserve fuel madt size p rs s small lt table room spins = refl
  after_reserve fuel madt size p rs s small lt table room out_of_fuel = refl
  after_reserve fuel madt size p rs s small lt table room overruns = refl

  -- For a MADT of a length below 2^32 that consists of records, none of length 0, of which the last may
  -- run past the end, and that with those of before has at most 128 processors, 8 I/O APICs, 16 source
  -- overrides and 8 non-maskable interrupts: what madt_init does to the page tables is to reserve the
  -- pages of the table and to map the registers of each I/O APIC, in the order of the table, and then of
  -- the local APIC. If that returns, so does madt_init, which has put the addresses of the processors,
  -- I/O APICs, source overrides and non-maskable interrupts behind those that it had before, each kind
  -- in the order of the table, and counted them; the address of the local APIC is that of the last
  -- override or, without one, that of the header.
  pub madt_init-informed :
      (madt : ℕ) (rs : List ℕ) (s : Madt)
      → madt_header_size ≤ memory.word32 (madt + length_offset)
      → memory.word32 (madt + length_offset) < 2 ^ 32
      → IsTable memory madt (memory.word32 (madt + length_offset) - madt_header_size) 0 rs
      → HasRoom memory rs s.information
      → madt_init libc memory madt s
        ≡ keeping tt
            (informed_of madt rs s.information)
            (record s { madt = madt })
            (map_controllers madt rs s.paging)
  unfolding madt_init
  madt_init-informed madt rs s header word table room =
      let length_of = memory.word32 (madt + length_offset) in
      let size = length_of - madt_header_size in
      let short = length-IsTable madt size 0 rs table in
      let whole : sub64 length_of madt_header_size ≡ size = omega (arith, header, word) in
      rw whole (
        after_reserve (suc size) madt size (memory.word32 (madt + local_apic_address_offset)) rs
          (record s { madt = madt }) (omega (arith, word)) (omega (arith, short)) table room
          (in_pageframe (pageframe_reserve_size madt length_of) s.paging))
