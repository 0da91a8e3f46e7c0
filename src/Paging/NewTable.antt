-- ===== src/Paging/NewTable.antt =====
-- One level of `paging_map_page` where the entry is not present: a new table.
use mathlib.Core.Option.{none-ne-some, some-injective}
use native.Mathlib.Decide.{ℕ_discrete}
use visual_os.Paging.Supply.{Granted-IsReady}
use visual_os.Paging.Entered.{
  entry_of, entry_of_lem, entry_of-large, put_entry-at, update-at, Entered,
}
use visual_os.Pageframe.Request.{Refused}
use visual_os.Pageframe.{null}
use visual_os.Pageframe.Update.{map_pages}
use visual_os.Base.{
  ltb, ℕ, suc, ◌+◌, ◌-◌, ◌*◌, ◌/◌, ◌%◌, ◌^◌, ◌<◌, ◌≤◌, ◌≡◌, ◌≢◌, refl, true, false, none, some,
  ◌==◌, ◌&&◌, update, u64_mod, arith, ap, ◌∙◌, sym, ◌⊎◌, if◌then◌else◌, inl, inr, Bool-cases,
}
use visual_os.Base.Libc.{Libc}
use visual_os.Base.Run.{ok, and_then}
use visual_os.Pageframe.{Pageframe, memory_page_size, pageframe_request}
use visual_os.Pageframe.Update.{locked}
use visual_os.Pageframe.Request.{IsReady, page_used, Granted}
use visual_os.Pageframe.Pages.{size-fill}
use visual_os.Pageframe.Tight.{used-fill}
use visual_os.Paging.{
  Paging, in_pageframe, put_entry, new_table, next_level, page_directory_present, get_bit,
}
use visual_os.Paging.EntryLaws.{get_bit-zero}
use visual_os.Paging.Walk.{entry_target, enter, WellFormed, Enough}

even-absent : (e : ℕ) → e % 2 ≢ 1 → get_bit e page_directory_present ≡ false
even-absent e p = ground (arith, get_bit-zero e)

-- The tables after `next_level` made the table `fresh`.
abbrev entered : Libc → (ℕ → ℕ → ℕ) → ℕ → ℕ → ℕ → ℕ → ℕ → ℕ
entered libc tables t i fresh =
    let cleared = update tables fresh (libc.memset_words (tables fresh) memory_page_size) in
    put_entry cleared t i (entry_of (tables t i) (fresh / 2 ^ 12))

new_table-entered :
    (libc : Libc) (t i k : ℕ) (s : Paging)
    → Granted s.pageframe k (pageframe_request s.pageframe)
    → new_table libc t i (s.tables t i) s
      ≡ ok (k * memory_page_size) (record s {
        pageframe = locked 1 k (record s.pageframe { current_index = k + 1 });
        tables = entered libc s.tables t i (k * memory_page_size);
      })
unfolding new_table
new_table-entered libc t i k s g = rw (g.run, new_table, and_then, in_pageframe) refl

new_table-Refused :
    (libc : Libc) (t i : ℕ) (s : Paging) (f : Refused s.pageframe (pageframe_request s.pageframe))
    → new_table libc t i (s.tables t i) s
      ≡ ok null (record s {
        pageframe = record s.pageframe {
          current_index =
              if ltb s.pageframe.current_index (map_pages s.pageframe)
              then map_pages s.pageframe
              else s.pageframe.current_index;
        };
        tables = entered libc s.tables t i null;
      })
unfolding new_table
new_table-Refused libc t i s f = rw (f.run, new_table, and_then, in_pageframe) refl

next_level-absent :
    (libc : Libc) (t i : ℕ) (s : Paging)
    → s.tables t i % 2 ≢ 1
    → next_level libc t i s ≡ new_table libc t i (s.tables t i) s
unfolding next_level
next_level-absent libc t i s p = rw (even-absent (s.tables t i) p) refl

-- With no page left the allocator answers `NULL`, which is not looked at: the level goes on with a
-- present entry that points to the table at address 0.
pub next_level-out_of_pages :
    (libc : Libc) (t i : ℕ) (s : Paging)
    → s.tables t i % 2 ≢ 1
    → s.tables t i < u64_mod
    → Refused s.pageframe (pageframe_request s.pageframe)
    → (after : Paging) × (next_level libc t i s ≡ ok null after)
      × (enter after.tables t i ≡ some null)
unfolding entry_target
next_level-out_of_pages libc t i s p word f =
    let (odd, target, small) = entry_of_lem (s.tables t i) 0 word (omega arith) in
    let value : entered libc s.tables t i null t i ≡ entry_of (s.tables t i) 0 =
      rw put_entry-at (ground arith) in
    (
      _,
      next_level-absent libc t i s p ∙ new_table-Refused libc t i s f,
      rw (value, odd, target) refl,
    )

module _ (libc : Libc) (level : ℕ → ℕ) (s : Paging) (t i n m : ℕ) (w : WellFormed level s)
    (at_level : level t ≡ suc (suc n)) (small : i < 512) (more : Enough (suc m) s.pageframe) where
  module _ (p : s.tables t i % 2 ≢ 1) (k : ℕ)
      (g : Granted s.pageframe k (pageframe_request s.pageframe)) where
    abbrev fresh : ℕ
    fresh = k * memory_page_size

    abbrev tables' : ℕ → ℕ → ℕ
    tables' = entered libc s.tables t i fresh

    abbrev level' : ℕ → ℕ
    level' = update level fresh (suc n)

    abbrev pageframe' : Pageframe
    pageframe' = locked 1 k (record s.pageframe { current_index = k + 1 })

    fresh_page : fresh / 4096 ≡ k
    fresh_page = omega arith

    page_bound : k < 2 ^ 40
    page_bound = omega (arith, g.inside, w.small)

    fresh_off : level fresh ≡ 0
    fresh_off = elim (ℕ_discrete (level fresh) 0) [
      | yes e ↦ e
      | no ne ↦ absurd (cc (rw fresh_page at (w.owned fresh ne), g.was_free))
    ]

    not_fresh : (x : ℕ) → level x ≢ 0 → x ≢ fresh
    not_fresh x h e = h (rw e fresh_off)

    entries :
        (x j : ℕ)
        → tables' x j ≡ (
            if t == x && i == j
            then entry_of (s.tables t i) k
            else if fresh == x
            then libc.memset_words (s.tables fresh) memory_page_size j
            else s.tables x j)
    entries x j = rw (put_entry-at, update-at, fresh_page) refl

    entry-changed : tables' t i ≡ entry_of (s.tables t i) k
    entry-changed = ground (arith, entries t i)

    entry-kept : (x j : ℕ) → x ≢ fresh → ¬ ((x ≡ t) × (j ≡ i)) → tables' x j ≡ s.tables x j
    entry-kept x j nf ne = ground (arith, entries x j)

    entry-cleared : (j : ℕ) → j < 512 → tables' fresh j ≡ 0
    entry-cleared j h = ground (
      arith,
      entries fresh j,
      not_fresh t,
      libc.memset_words_lem (s.tables fresh) memory_page_size j,
    )

    enter-fresh : enter tables' t i ≡ some fresh
    unfolding entry_target
    enter-fresh =
        let (odd, target, word) = entry_of_lem (s.tables t i) k (w.words t i) page_bound in
        rw (entry-changed, odd, target) refl

    enter-cleared : (j : ℕ) → j < 512 → enter tables' fresh j ≡ none
    unfolding entry_target
    enter-cleared j h = rw (entry-cleared j h) refl

    -- Where an entry of the new tables comes from.
    origin :
        (x j c : ℕ)
        → 2 ≤ level' x
        → j < 512
        → enter tables' x j ≡ some c
        → ((x ≡ t) × (j ≡ i) × (c ≡ fresh)) ⊎ ((level x ≡ level' x) × (enter s.tables x j ≡ some c))
    origin x j c two h e = elim (ℕ_discrete x fresh) [
      | yes new ↦
          let none_there : enter tables' x j ≡ none = rw new (enter-cleared j h) in
          absurd (none-ne-some c (sym none_there ∙ e))
      | no old ↦ elim (Bool-cases (t == x && i == j)) [
        | inl here ↦
            let et : x ≡ t = ground arith in
            let ei : j ≡ i = ground arith in
            let there : enter tables' x j ≡ some fresh = rw (et, ei) enter-fresh in
            inl (et, ei, some-injective c fresh (sym e ∙ there))
        | inr there ↦ inr (
          ground arith,
          ap entry_target (sym (entry-kept x j old (λ (a, b). absurd (ground arith)))) ∙ e,
        )
      ]
    ]

    formed-words : (x j : ℕ) → tables' x j < u64_mod
    formed-words x j =
        let (odd, target, word) = entry_of_lem (s.tables t i) k (w.words t i) page_bound in
        ground (
          arith,
          entries x j,
          w.words x j,
          w.words fresh j,
          libc.memset_words_lem (s.tables fresh) memory_page_size j,
        )

    formed-no_large : (x j : ℕ) → 2 ≤ level' x → j < 512 → tables' x j / 2 ^ 7 % 2 ≡ 0
    formed-no_large x j two h = elim (ℕ_discrete x fresh) [
      | yes new ↦ elim (Bool-cases (t == fresh && i == j)) [
        | inl here ↦ absurd (ground (arith, not_fresh t))
        | inr there ↦ rw (new, entry-cleared j h) refl
      ]
      | no old ↦ elim (Bool-cases (t == x && i == j)) [
        | inl here ↦
            let et : x ≡ t = ground arith in
            let ei : j ≡ i = ground arith in
            rw (et, ei, entry-changed)
              (entry_of-large (s.tables t i) k (w.words t i) page_bound
                ∙ w.no_large t i (omega arith) small)
        | inr there ↦
            rw (entry-kept x j old (λ (a, b). absurd (ground arith)))
              (w.no_large x j (ground arith) h)
      ]
    ]

    formed-owned : (x : ℕ) → level' x ≢ 0 → page_used pageframe' (x / 4096) ≡ true
    formed-owned x h = ground (
      arith,
      used-fill s.pageframe w.ready.valid 1 k (x / 4096) true,
      g.inside,
      w.owned x,
      fresh_page,
    )

    pageframe'-IsReady : IsReady pageframe'
    pageframe'-IsReady = Granted-IsReady s.pageframe k w.ready g

    level'-old : (x : ℕ) → level x ≢ 0 → level' x ≡ level x
    level'-old x h = ground (arith, not_fresh x h)

    -- A new entry's table is no target of an old entry.
    no_old_target : (x j : ℕ) → 2 ≤ level x → j < 512 → enter s.tables x j ≢ some fresh
    no_old_target x j two h e =
        omega (arith, fresh_off, w.child x j (level x - 2) fresh (omega arith) h e)

    formed-child :
        (x j n' c : ℕ)
        → level' x ≡ suc (suc n')
        → j < 512
        → enter tables' x j ≡ some c
        → level' c ≡ suc n'
    formed-child x j n' c lx h e = elim (origin x j c (omega arith) h e) [
      | inl (et, ei, ec) ↦ ground (arith, level'-old t)
      | inr (same, old) ↦
          let child : level c ≡ suc n' = w.child x j n' c (same ∙ lx) h old in
          omega (arith, child, level'-old c (omega (arith, child)))
    ]

    formed-tree :
        (x j u v c : ℕ)
        → 2 ≤ level' x
        → 2 ≤ level' u
        → j < 512
        → v < 512
        → enter tables' x j ≡ some c
        → enter tables' u v ≡ some c
        → (x ≡ u) × (j ≡ v)
    formed-tree x j u v c lx lu hj hv ex eu = elim (origin x j c lx hj ex) [
      | inl (xt, ji, cf) ↦ elim (origin u v c lu hv eu) [
        | inl (ut, vi, cf') ↦ (xt ∙ sym ut, ji ∙ sym vi)
        | inr (same, old) ↦ absurd (no_old_target u v (omega arith) hv (old ∙ ap some cf))
      ]
      | inr (same, old) ↦ elim (origin u v c lu hv eu) [
        | inl (ut, vi, cf) ↦ absurd (no_old_target x j (omega arith) hj (old ∙ ap some cf))
        | inr (same', old') ↦ w.tree x j u v c (omega arith) (omega arith) hj hv old old'
      ]
    ]

    abbrev after : Paging
    after = record s { pageframe = pageframe'; tables = tables' }

    formed : WellFormed level' after
    formed = record {
      ready = pageframe'-IsReady;
      small = rw (size-fill) w.small;
      words = formed-words;
      no_large = formed-no_large;
      aligned = λ x h. ground (arith, w.aligned x);
      owned = formed-owned;
      child = formed-child;
      tree = formed-tree;
    }

    was_none : enter s.tables t i ≡ none
    unfolding entry_target
    was_none = ground (arith, p)

    present_kept :
        (x j c : ℕ) → level x ≢ 0 → enter s.tables x j ≡ some c → enter tables' x j ≡ some c
    present_kept x j c h e =
        ap entry_target (
          entry-kept x j (not_fresh x h) (λ (xt, ji).
            let there : enter s.tables x j ≡ none = rw (xt, ji) was_none in
            absurd (none-ne-some c (sym there ∙ e))))
        ∙ e

    pub absent-Entered : Enough m pageframe' → Entered level s t i n m (next_level libc t i s)
    absent-Entered rest = record {
      table = fresh;
      after = after;
      level' = level';
      run = next_level-absent libc t i s p ∙ new_table-entered libc t i k s g;
      formed = formed;
      enough = rest;
      is_level = ground arith;
      keeps_level = level'-old;
      entered = enter-fresh;
      keeps_present = present_kept;
    }
