-- ===== src/Paging/LastEntry.antt =====
-- The last write of `paging_map_page`: an entry of a level 1 table.
use visual_os.Base.{ℕ, ◌*◌, ◌/◌, ◌^◌, ◌<◌, ◌≤◌, ◌≡◌, refl, some, arith, ap, ◌∙◌, sym}
use visual_os.Paging.{Paging, put_entry}
use visual_os.Paging.Walk.{entry_target, enter, WellFormed}
use visual_os.Paging.Entered.{entry_of, entry_of_lem, put_entry-at}

-- The state after the last entry is written.
abbrev pub with_page : ℕ → ℕ → ℕ → Paging → Paging
with_page l1 i pa s = record s {
  tables = put_entry s.tables l1 i (entry_of (s.tables l1 i) (pa / 2 ^ 12));
}

-- Writing an entry of a level 1 table.
module _ (level : ℕ → ℕ) (s : Paging) (w : WellFormed level s) (l1 i pa : ℕ) (at_one : level l1 ≡ 1)
    (phys : pa < 2 ^ 52) where
  pub with_page-kept :
      (x j : ℕ) → ¬ ((x ≡ l1) × (j ≡ i)) → (with_page l1 i pa s).tables x j ≡ s.tables x j
  with_page-kept x j ne =
      ground (arith, put_entry-at s.tables l1 i (entry_of (s.tables l1 i) (pa / 2 ^ 12)) x j)

  pub with_page-entered : enter (with_page l1 i pa s).tables l1 i ≡ some (pa / 2 ^ 12 * 2 ^ 12)
  unfolding entry_target
  with_page-entered =
      let (odd, target, word) =
        entry_of_lem (s.tables l1 i) (pa / 2 ^ 12) (w.words l1 i) (omega arith) in
      let value : (with_page l1 i pa s).tables l1 i ≡ entry_of (s.tables l1 i) (pa / 2 ^ 12) =
        ground (arith, put_entry-at s.tables l1 i (entry_of (s.tables l1 i) (pa / 2 ^ 12)) l1 i) in
      rw (value, odd, target) refl

  pub with_page-upper :
      (x j : ℕ) → 2 ≤ level x → enter (with_page l1 i pa s).tables x j ≡ enter s.tables x j
  with_page-upper x j h =
      ap entry_target (with_page-kept x j (λ (e, f). absurd (omega (arith, at_one, ap level e))))

  pub with_page-WellFormed : WellFormed level (with_page l1 i pa s)
  with_page-WellFormed =
      let (odd, target, word) =
        entry_of_lem (s.tables l1 i) (pa / 2 ^ 12) (w.words l1 i) (omega arith) in
      record {
        ready = w.ready;
        small = w.small;
        words = λ x j. ground (
          arith,
          put_entry-at s.tables l1 i (entry_of (s.tables l1 i) (pa / 2 ^ 12)) x j,
          w.words x j,
        );
        no_large = λ x j two h.
            rw (with_page-kept x j (λ (e, f). absurd (omega (arith, at_one, ap level e))))
              (w.no_large x j two h);
        aligned = w.aligned;
        owned = w.owned;
        child =
            λ x j n c lx h e. w.child x j n c lx h (sym (with_page-upper x j (omega arith)) ∙ e);
        tree = λ x j u v c lx lu hj hv e f.
            w.tree x j u v c lx lu hj hv (sym (with_page-upper x j lx) ∙ e)
              (sym (with_page-upper u v lu) ∙ f);
      }
