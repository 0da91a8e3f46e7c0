-- ===== src/Sys/Memory.antt =====
-- `sys_mmap` and `sys_munmap`: pages that the one gives out, the other gives back.
use visual_os.Base.{
  ℕ, ◌+◌, ◌*◌, ◌/◌, ◌<◌, ◌≤◌, ◌≡◌, refl, true, false, arith, ◌==◌, bit_or, u64_mod, ◌∙◌, ap, sym,
  inl, inr, Bool-cases, ==_iff,
}
use visual_os.Base.Run.{ok, Cmd, then_ok}
use visual_os.Atomic.{bt}
use visual_os.Pageframe.{Pageframe, memory_page_size, pageframe_request_pages, pageframe_free}
use visual_os.Pageframe.Pages.{size-fill}
use visual_os.Pageframe.Update.{
  IsValid, map_pages, locked, freed, pageframe_free-freed, locked-IsValid,
}
use visual_os.Pageframe.Request.{IsReady, page_used, move-IsValid}
use visual_os.Pageframe.Tight.{used-fill}
use visual_os.Pageframe.RequestPages.Outcome.{Granted}
use visual_os.Paging.{Paging, in_pageframe, paging_get_pagetable_l4}
use visual_os.Paging.Attribute.{nearest_page, page_directory_writable, paging_set_attribute}
use visual_os.LocalApic.Bits.{bit_or-bt}
use visual_os.Sys.{sys_mmap, sys_munmap}

bt_zero : bt 0 1 ≡ false
unfolding bt
bt_zero = refl

-- What has the bit of PROT_WRITE is not 0.
or_write : (prot prot_write : ℕ) → bt prot_write 1 ≡ true → (bit_or prot prot_write == 0) ≡ false
or_write prot prot_write on = elim (Bool-cases (bit_or prot prot_write == 0)) [
  | inr e ↦ e
  | inl e ↦
      let one : bt 0 1 ≡ true =
        ap (λ n. bt n 1) (sym ((==_iff _ _).0 e))
        ∙ bit_or-bt 1 prot prot_write
        ∙ ground (arith, on) in
      cc (one, bt_zero)
]

module _ (s : Pageframe) (pages k : ℕ) (r : IsReady s)
    (g : Granted s pages k (pageframe_request_pages pages s))
    (room : s.memory_used_size + pages * memory_page_size < u64_mod) where
  abbrev given : Pageframe
  given = locked pages k (record s { current_index = k + pages })

  small : k + pages ≤ map_pages s
  small = g.inside

  given-IsValid : IsValid given
  given-IsValid =
      locked-IsValid pages k (record s { current_index = k + pages })
        (move-IsValid s (k + pages) s.mutex r.valid (omega (arith, g.inside, r.valid.small)))

  index : k * memory_page_size / memory_page_size ≡ k
  index = omega arith

  given_back : pageframe_free (k * memory_page_size) pages given ≡ ok tt (freed pages k given)
  given_back =
      let run : pageframe_free (k * memory_page_size) pages given
          ≡ ok tt (freed pages (k * memory_page_size / memory_page_size) given) =
        pageframe_free-freed (k * memory_page_size) pages given given-IsValid
          (rw (index, size-fill pages k true s.pageframemap) g.inside) r.free_off in
      rw index at run

  same : (j : ℕ) → page_used (freed pages k given) j ≡ page_used s j
  same j = ground (
    arith,
    g.inside,
    g.was_free j,
    size-fill pages k true s.pageframemap,
    used-fill s r.valid pages k j true g.inside,
    used-fill given given-IsValid pages k j false,
  )

in_pageframe-ok :
    {A : Type 0} (m : Cmd Pageframe A) (s : Paging) {a : A} {t : Pageframe}
    → m s.pageframe ≡ ok a t
    → in_pageframe m s ≡ ok a (record s { pageframe = t })
in_pageframe-ok m s e = rw (e, in_pageframe) refl

-- What is left of the pages that sys_mmap gave out, when sys_munmap has taken them back.
pub record IsGivenBack (prot_write addr len prot flags fd offset k : ℕ) (s : Paging) : Type 0 where
  pub after : Paging
  pub back : Pageframe
  pub mapped : sys_mmap prot_write addr len prot flags fd offset s ≡ ok (k * memory_page_size) after
  pub used : (j : ℕ) → k ≤ j → j < k + nearest_page len → page_used after.pageframe j ≡ true
  pub writable :
      after
      ≡ paging_set_attribute s.pagetable_l4
          (k * memory_page_size)
          (nearest_page len)
          page_directory_writable
          true
          (record s { pageframe = after.pageframe })
  pub unmapped : sys_munmap (k * memory_page_size) len after.pageframe ≡ ok 0 back
  pub same : (j : ℕ) → page_used back j ≡ page_used s.pageframe j
  pub used_size : back.memory_used_size ≡ s.pageframe.memory_used_size

-- For an allocator that is ready and gives out the pages from k on for the length, with a used size
-- that does not wrap: sys_mmap returns their address, with the pages in use, and has made them
-- writable in the current tables, whatever protection was asked for; sys_munmap of the same address
-- and length then returns, and restores the state of every page and the used size.
pub sys_munmap-mmap :
    (prot_write addr len prot flags fd offset k : ℕ) (s : Paging)
    → bt prot_write 1 ≡ true
    → IsReady s.pageframe
    → Granted s.pageframe
        (nearest_page len)
        k
        (pageframe_request_pages (nearest_page len) s.pageframe)
    → s.pageframe.memory_used_size + nearest_page len * memory_page_size < u64_mod
    → IsGivenBack prot_write addr len prot flags fd offset k s
unfolding sys_mmap sys_munmap paging_set_attribute paging_get_pagetable_l4
sys_munmap-mmap prot_write addr len prot flags fd offset k s on r g room =
    let pages = nearest_page len in
    let t = given s.pageframe pages k r g room in
    record {
      after =
          paging_set_attribute s.pagetable_l4 (k * memory_page_size) pages page_directory_writable
            true (record s { pageframe = t });
      back = freed pages k t;
      mapped =
          then_ok _ (in_pageframe-ok (pageframe_request_pages pages) s g.run)
          ∙ rw (or_write prot prot_write on) refl;
      used = λ j a b. ground (arith, used-fill s.pageframe r.valid pages k j true g.inside);
      writable = refl;
      unmapped = rw (given_back s.pageframe pages k r g room) refl;
      same = same s.pageframe pages k r g room;
      used_size = let word = r.valid.used_word in omega (arith, room);
    }
