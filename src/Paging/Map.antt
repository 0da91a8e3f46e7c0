-- ===== src/Paging/Map.antt =====
-- `paging_map_page` against the walk of the processor.
use visual_os.Base.{ℕ, ◌+◌, ◌*◌, ◌/◌, ◌%◌, ◌^◌, ◌<◌, ◌≤◌, ◌≡◌, ◌≢◌, refl, some, arith, ap, ◌∙◌}
use visual_os.Base.Libc.{Libc}
use visual_os.Base.Run.{Run, ok}
use visual_os.Paging.{Paging, paging_get_indexes, next_level, paging_map_page}
use visual_os.Paging.EntryLaws.{indexes-digits}
use visual_os.Paging.Walk.{
  entry_target, enter, translate, Path4, translate_of, path_of, WellFormed, Enough,
}
use visual_os.Paging.Entered.{Entered}
use visual_os.Paging.LastEntry.{
  with_page, with_page-kept, with_page-entered, with_page-upper, with_page-WellFormed,
}
use visual_os.Paging.Level.{next_level-Entered}

map_page-run :
    (libc : Libc) (l4 l3 l2 l1 va pa : ℕ) (s s3 s2 s1 : Paging)
    → next_level libc l4 (paging_get_indexes va).l4_i s ≡ ok l3 s3
    → next_level libc l3 (paging_get_indexes va).l3_i s3 ≡ ok l2 s2
    → next_level libc l2 (paging_get_indexes va).l2_i s2 ≡ ok l1 s1
    → paging_map_page libc l4 va pa s ≡ ok tt (with_page l1 (paging_get_indexes va).l1_i pa s1)
unfolding paging_map_page
map_page-run libc l4 l3 l2 l1 va pa s s3 s2 s1 r4 r3 r2 = rw (r4, r3, r2) refl

abbrev pub page_number : ℕ → ℕ
page_number address = address / 2 ^ 12 % 2 ^ 36

-- What `paging_map_page` leaves: the virtual address is mapped, and every other page that was mapped
-- is mapped as before.
pub record Mapped (level : ℕ → ℕ) (s : Paging) (l4 va pa : ℕ) (r : Run Paging (Unit {0}))
    : Type 0 where
  pub after : Paging
  pub level' : ℕ → ℕ
  pub run : r ≡ ok tt after
  pub formed : WellFormed level' after
  pub keeps_level : (x : ℕ) → level x ≢ 0 → level' x ≡ level x
  pub mapped : translate after.tables l4 va ≡ some (pa / 2 ^ 12 * 2 ^ 12 + va % 2 ^ 12)
  pub others :
      (a p : ℕ)
      → page_number a ≢ page_number va
      → translate s.tables l4 a ≡ some p
      → translate after.tables l4 a ≡ some p

module _ (libc : Libc) (level : ℕ → ℕ) (s : Paging) (l4 va pa : ℕ) (w : WellFormed level s)
    (root : level l4 ≡ 4) (more : Enough 3 s.pageframe) (phys : pa < 2 ^ 52) where
  i4 : ℕ
  i4 = va / 2 ^ 39 % 512

  i3 : ℕ
  i3 = va / 2 ^ 30 % 512

  i2 : ℕ
  i2 = va / 2 ^ 21 % 512

  i1 : ℕ
  i1 = va / 2 ^ 12 % 512

  at_l4 : (paging_get_indexes va).l4_i ≡ i4
  unfolding i4
  at_l4 = omega (arith, (indexes-digits va).3)

  at_l3 : (paging_get_indexes va).l3_i ≡ i3
  unfolding i3
  at_l3 = omega (arith, (indexes-digits va).2)

  at_l2 : (paging_get_indexes va).l2_i ≡ i2
  unfolding i2
  at_l2 = omega (arith, (indexes-digits va).1)

  at_l1 : (paging_get_indexes va).l1_i ≡ i1
  unfolding i1
  at_l1 = omega (arith, (indexes-digits va).0)

  e4 : Entered level s l4 i4 2 2 (next_level libc l4 i4 s)
  unfolding i4
  e4 = next_level-Entered libc level s l4 i4 2 2 w root (omega arith) more

  e3 : Entered e4.level' e4.after e4.table i3 1 1 (next_level libc e4.table i3 e4.after)
  unfolding i3
  e3 =
      next_level-Entered libc e4.level' e4.after e4.table i3 1 1 e4.formed e4.is_level (omega arith)
        e4.enough

  e2 : Entered e3.level' e3.after e3.table i2 0 0 (next_level libc e3.table i2 e3.after)
  unfolding i2
  e2 =
      next_level-Entered libc e3.level' e3.after e3.table i2 0 0 e3.formed e3.is_level (omega arith)
        e3.enough

  abbrev last : Paging
  last = with_page e2.table i1 pa e2.after

  run : paging_map_page libc l4 va pa s ≡ ok tt last
  run =
      let r4 : next_level libc l4 (paging_get_indexes va).l4_i s ≡ ok e4.table e4.after =
        rw at_l4 e4.run in
      let r3 : next_level libc e4.table (paging_get_indexes va).l3_i e4.after
          ≡ ok e3.table e3.after =
        rw at_l3 e3.run in
      let r2 : next_level libc e3.table (paging_get_indexes va).l2_i e3.after
          ≡ ok e2.table e2.after =
        rw at_l2 e2.run in
      let all : paging_map_page libc l4 va pa s
          ≡ ok tt (with_page e2.table (paging_get_indexes va).l1_i pa e2.after) =
        map_page-run libc l4 e4.table e3.table e2.table va pa s e4.after e3.after e2.after r4 r3
          r2 in
      rw at_l1 at all

  abbrev final : ℕ → ℕ
  final = e2.level'

  keeps_level : (x : ℕ) → level x ≢ 0 → final x ≡ level x
  keeps_level x h =
      let k4 : e4.level' x ≡ level x = e4.keeps_level x h in
      let k3 : e3.level' x ≡ e4.level' x = e3.keeps_level x (omega (arith, k4)) in
      let k2 : e2.level' x ≡ e3.level' x = e2.keeps_level x (omega (arith, k4, k3)) in k2 ∙ k3 ∙ k4

  level_l3 : final e4.table ≡ 3
  level_l3 =
      let k3 : e3.level' e4.table ≡ e4.level' e4.table =
        e3.keeps_level e4.table (omega (arith, e4.is_level)) in
      let k2 : e2.level' e4.table ≡ e3.level' e4.table =
        e2.keeps_level e4.table (omega (arith, e4.is_level, k3)) in
      k2 ∙ k3 ∙ e4.is_level

  level_l2 : final e3.table ≡ 2
  level_l2 = e2.keeps_level e3.table (omega (arith, e3.is_level)) ∙ e3.is_level

  -- An entry that was present is so after the three tables are there.
  still_present :
      (x j c : ℕ) → level x ≢ 0 → enter s.tables x j ≡ some c → enter e2.after.tables x j ≡ some c
  still_present x j c h e =
      let k4 : e4.level' x ≡ level x = e4.keeps_level x h in
      let k3 : e3.level' x ≡ e4.level' x = e3.keeps_level x (omega (arith, k4)) in
      e2.keeps_present x j c (omega (arith, k4, k3))
        (e3.keeps_present x j c (omega (arith, k4)) (e4.keeps_present x j c h e))

  in4 : enter e2.after.tables l4 i4 ≡ some e4.table
  in4 =
      let k4 : e4.level' l4 ≡ level l4 = e4.keeps_level l4 (omega arith) in
      let k3 : e3.level' l4 ≡ e4.level' l4 = e3.keeps_level l4 (omega (arith, k4)) in
      e2.keeps_present l4 i4 e4.table (omega (arith, k4, k3))
        (e3.keeps_present l4 i4 e4.table (omega (arith, k4)) e4.entered)

  in3 : enter e2.after.tables e4.table i3 ≡ some e3.table
  in3 =
      let k3 : e3.level' e4.table ≡ e4.level' e4.table =
        e3.keeps_level e4.table (omega (arith, e4.is_level)) in
      e2.keeps_present e4.table i3 e3.table (omega (arith, e4.is_level, k3)) e3.entered

  -- The upper entries are not touched by the last write.
  upper : (x j : ℕ) → 2 ≤ final x → enter last.tables x j ≡ enter e2.after.tables x j
  upper = with_page-upper final e2.after e2.formed e2.table i1 pa e2.is_level phys

  mapped : translate last.tables l4 va ≡ some (pa / 2 ^ 12 * 2 ^ 12 + va % 2 ^ 12)
  unfolding i4 i3 i2 i1
  mapped = translate_of (record {
    l3 = e4.table;
    l2 = e3.table;
    l1 = e2.table;
    page = pa / 2 ^ 12 * 2 ^ 12;
    at4 = upper l4 i4 (omega (arith, keeps_level l4)) ∙ in4;
    at3 = upper e4.table i3 (omega (arith, level_l3)) ∙ in3;
    at2 = upper e3.table i2 (omega (arith, level_l2)) ∙ e2.entered;
    at1 = with_page-entered final e2.after e2.formed e2.table i1 pa e2.is_level phys;
    sum = refl;
  })

  -- Two walks that come to one level 1 table have gone through the same entries.
  same_walk :
      (m3 m2 j4 j3 j2 : ℕ)
      → final m3 ≡ 3
      → final m2 ≡ 2
      → j4 < 512
      → j3 < 512
      → j2 < 512
      → enter e2.after.tables l4 j4 ≡ some m3
      → enter e2.after.tables m3 j3 ≡ some m2
      → enter e2.after.tables m2 j2 ≡ some e2.table
      → (j4 ≡ i4) × (j3 ≡ i3) × (j2 ≡ i2)
  unfolding i4 i3 i2
  same_walk m3 m2 j4 j3 j2 l3 l2 h4 h3 h2 p4 p3 p2 =
      let tree = e2.formed.tree in
      let (eq2, f2) =
        tree m2 j2 e3.table i2 e2.table (omega arith) (omega (arith, level_l2)) h2 (omega arith) p2
          e2.entered in
      let (eq3, f3) =
        tree m3 j3 e4.table i3 e3.table (omega arith) (omega (arith, level_l3)) h3 (omega arith)
          (p3 ∙ ap some eq2) in3 in
      let (eq4, f4) =
        tree l4 j4 l4 i4 e4.table (omega (arith, keeps_level l4)) (omega (arith, keeps_level l4)) h4
          (omega arith) (p4 ∙ ap some eq3) in4 in
      (f4, f3, f2)

  same_number :
      (a : ℕ)
      → a / 2 ^ 39 % 512 ≡ i4
      → a / 2 ^ 30 % 512 ≡ i3
      → a / 2 ^ 21 % 512 ≡ i2
      → a / 2 ^ 12 % 512 ≡ i1
      → page_number a ≡ page_number va
  unfolding i4 i3 i2 i1
  same_number a h4 h3 h2 h1 = omega arith

  others :
      (a p : ℕ)
      → page_number a ≢ page_number va
      → translate s.tables l4 a ≡ some p
      → translate last.tables l4 a ≡ some p
  others a p ne t =
      let old : Path4 s.tables l4 a p = path_of s.tables l4 a p t in
      let c3 : level old.l3 ≡ 3 =
        w.child l4 (a / 2 ^ 39 % 512) 2 old.l3 root (omega arith) old.at4 in
      let c2 : level old.l2 ≡ 2 =
        w.child old.l3 (a / 2 ^ 30 % 512) 1 old.l2 c3 (omega arith) old.at3 in
      let c1 : level old.l1 ≡ 1 =
        w.child old.l2 (a / 2 ^ 21 % 512) 0 old.l1 c2 (omega arith) old.at2 in
      let n3 : final old.l3 ≡ 3 = keeps_level old.l3 (omega arith) ∙ c3 in
      let n2 : final old.l2 ≡ 2 = keeps_level old.l2 (omega arith) ∙ c2 in
      let p4 = still_present l4 (a / 2 ^ 39 % 512) old.l3 (omega arith) old.at4 in
      let p3 = still_present old.l3 (a / 2 ^ 30 % 512) old.l2 (omega arith) old.at3 in
      let p2 = still_present old.l2 (a / 2 ^ 21 % 512) old.l1 (omega arith) old.at2 in
      let p1 = still_present old.l1 (a / 2 ^ 12 % 512) old.page (omega arith) old.at1 in
      translate_of (record {
        l3 = old.l3;
        l2 = old.l2;
        l1 = old.l1;
        page = old.page;
        at4 = upper l4 (a / 2 ^ 39 % 512) (omega (arith, keeps_level l4)) ∙ p4;
        at3 = upper old.l3 (a / 2 ^ 30 % 512) (omega arith) ∙ p3;
        at2 = upper old.l2 (a / 2 ^ 21 % 512) (omega arith) ∙ p2;
        at1 =
            ap entry_target (
              with_page-kept final e2.after e2.formed e2.table i1 pa e2.is_level phys old.l1
                (a / 2 ^ 12 % 512)
                (λ (same, last_index).
                  let walks =
                    same_walk old.l3 old.l2 (a / 2 ^ 39 % 512) (a / 2 ^ 30 % 512) (a / 2 ^ 21 % 512)
                      n3 n2 (omega arith) (omega arith) (omega arith) p4 p3 (p2 ∙ ap some same) in
                  absurd (ne (same_number a walks.0 walks.1 walks.2 last_index))))
            ∙ p1;
        sum = old.sum;
      })

  -- For tables of the kernel's shape, a level 4 table, an allocator that can give out three pages and
  -- a physical address below 2 ^ 52: `paging_map_page` returns, the processor translates the virtual
  -- address to the physical page, every address of another page that it translated before it
  -- translates as before, and the tables keep their shape.
  pub paging_map_page_lem : Mapped level s l4 va pa (paging_map_page libc l4 va pa s)
  paging_map_page_lem = record {
    after = last;
    level' = final;
    run = run;
    formed = with_page-WellFormed final e2.after e2.formed e2.table i1 pa e2.is_level phys;
    keeps_level = keeps_level;
    mapped = mapped;
    others = others;
  }
