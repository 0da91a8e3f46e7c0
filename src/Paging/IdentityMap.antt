-- ===== src/Paging/IdentityMap.antt =====
-- `paging_identity_map` is `paging_map` from a range to itself.
use visual_os.Base.{
  ℕ, zero, suc, ◌+◌, ◌*◌, ◌≤◌, ◌≡◌, refl, true, false, ltb, arith, ap, ◌∙◌, add64, mul64,
  sign_extend, ◌^◌, u64_mod,
}
use visual_os.Base.Libc.{Libc}
use visual_os.Base.Run.{Cmd, ◌>>◌}
use visual_os.Pageframe.{memory_page_size}
use visual_os.Paging.{Paging, paging_map_page}
use visual_os.Paging.Regions.{map_loop, paging_map, identity_loop, paging_identity_map}

identity-step :
    (libc : Libc) (fuel l4 ptr stop : ℕ)
    → ltb ptr stop ≡ true
    → identity_loop libc (suc fuel) l4 ptr stop ≡ (
        paging_map_page libc l4 ptr ptr
        >> identity_loop libc fuel l4 (add64 ptr memory_page_size) stop)
unfolding identity_loop
identity-step libc fuel l4 ptr stop goes = rw (goes, identity_loop) refl

module _ (libc : Libc) (l4 address pages : ℕ) (few : pages ≤ 2 ^ 19)
    (fits : address + pages * memory_page_size + memory_page_size ≤ u64_mod) where
  abbrev stop : ℕ
  stop = add64 address (mul64 pages memory_page_size)

  loops-agree :
      (rounds i : ℕ)
      → i + rounds ≡ pages
      → identity_loop libc (suc rounds) l4 (add64 address (mul64 i memory_page_size)) stop
        ≡ map_loop libc rounds i l4 address address
  unfolding identity_loop map_loop
  loops-agree zero i e =
      let ends : ltb (add64 address (mul64 i memory_page_size)) stop ≡ false = ground arith in
      rw (ends, identity_loop) refl
  loops-agree (suc rounds) i e =
      let goes : ltb (add64 address (mul64 i memory_page_size)) stop ≡ true = ground arith in
      let next : add64 (add64 address (mul64 i memory_page_size)) memory_page_size
          ≡ add64 address (mul64 (i + 1) memory_page_size) =
        ground arith in
      let offset : sign_extend (i * memory_page_size) ≡ mul64 i memory_page_size = ground arith in
      let rest = loops-agree rounds (i + 1) (omega arith) in
      let ptr : ℕ = add64 address (mul64 i memory_page_size) in
      rw offset (
        identity-step libc (suc rounds) l4 ptr stop goes
        ∙ ap (λ (later : Cmd Paging (Unit {0})). paging_map_page libc l4 ptr ptr >> later)
            (ap (λ p. identity_loop libc (suc rounds) l4 p stop) next ∙ rest))

-- For a range of at most 2 ^ 19 pages that ends a page before 2 ^ 64 or earlier,
-- `paging_identity_map` ends, and does what `paging_map` does with the kernel's table and the range
-- as both its addresses.
pub identity_map-map :
    (libc : Libc) (address pages : ℕ) (s : Paging)
    → pages ≤ 2 ^ 19
    → address + pages * memory_page_size + memory_page_size ≤ u64_mod
    → paging_identity_map libc address pages s
      ≡ paging_map libc s.pagetable_l4 address address pages s
unfolding paging_identity_map paging_map
identity_map-map libc address pages s few fits =
    let first : add64 address (mul64 0 memory_page_size) ≡ address = omega arith in
    let all =
      rw first at (loops-agree libc s.pagetable_l4 address pages few fits pages 0 (omega arith)) in
    ap (λ (m : Cmd Paging (Unit {0})). m s) all
