-- ===== src/Pageframe/Tight.antt =====
-- The promise of `s_current_index` in src/kernel/memory/pageframe.c: all pages below it are in use,
-- so that a search from it on misses no free page.
use visual_os.Base.{
  ℕ, ◌+◌, ◌*◌, ◌/◌, ◌^◌, ◌≤◌, ◌<◌, ◌≡◌, Bool, true, false, arith, ◌&&◌, ltb, leb, if◌then◌else◌,
  inl, inr, ◌⊎◌, u64_mod,
}
use native.Mathlib.Decide.{dec_lt}
use visual_os.Base.Run.{Run, ok}
use visual_os.Bitmap.{bitmap_get}
use visual_os.Pageframe.{
  Pageframe, null, memory_page_size, pageframe_request, pageframe_free, pageframe_request_pages,
}
use visual_os.Pageframe.Pages.{fill, bitmap_get-fill, size-fill}
use visual_os.Pageframe.Update.{
  IsValid, map_pages, locked, reserved, freed, unreserved, pageframe_free-freed, locked-IsValid,
}
use visual_os.Pageframe.Request.{
  IsReady, UsedBetween, page_used, Granted, Refused, move-IsValid, pageframe_request_lem,
}
use visual_os.Pageframe.RequestPages.Search.{FreeBetween, NoRun}
use visual_os.Pageframe.RequestPages.Outcome

abbrev pub IsTight : Pageframe → Type 0
IsTight s = UsedBetween s.pageframemap 0 s.current_index

module _ (s : Pageframe) (v : IsValid s) where
  pub used-fill :
      (n i j : ℕ) (b : Bool)
      → i + n ≤ map_pages s
      → bitmap_get (fill n i b s.pageframemap) j
        ≡ (if leb i j && ltb j (i + n) then b else page_used s j)
  used-fill n i j b h = bitmap_get-fill n i j b s.pageframemap v.bytes (omega (arith, v.small))

  -- Locking, reserving, freeing and unreserving pages inside the bitmap keep the promise.
  pub updates-IsTight :
      (n i : ℕ)
      → i + n ≤ map_pages s
      → IsTight s
      → IsTight (locked n i s)
        × IsTight (reserved n i s)
        × IsTight (freed n i s)
        × IsTight (unreserved n i s)
  updates-IsTight n i h t = (
    λ j a b. ground (arith, used-fill n i j true h, t j),
    λ j a b. ground (arith, used-fill n i j true h, t j),
    λ j a b. ground (arith, used-fill n i j false h, t j),
    λ j a b. ground (arith, used-fill n i j false h, t j),
  )

-- What a tight and ready allocator answers to `pageframe_request`.
abbrev pub Answer : Pageframe → Run Pageframe ℕ → Type 0
Answer s r =
    ((k : ℕ) × (t : Pageframe) × (r ≡ ok (k * memory_page_size) t)
      × (k < map_pages s)
      × (page_used s k ≡ false)
      × UsedBetween s.pageframemap 0 k
      × (page_used t k ≡ true)
      × IsTight t)
    ⊎ (UsedBetween s.pageframemap 0 (map_pages s) × ((t : Pageframe) × (r ≡ ok null t) × IsTight t))

-- With the promise kept, `pageframe_request` gives out the lowest free page of all, which lies inside
-- the bitmap, and marks it used; or it gives `NULL`, with all pages of the bitmap in use. It keeps the
-- promise.
pub pageframe_request-lowest :
    (s : Pageframe) → IsReady s → IsTight s → Answer s (pageframe_request s)
pageframe_request-lowest s r tight = elim (pageframe_request_lem s r) [
  | inl (k, g) ↦ inl (
    k,
    locked 1 k (record s { current_index = k + 1 }),
    g.run,
    g.inside,
    g.was_free,
    below k g,
    mine k g,
    after k g,
  )
  | inr f ↦ inr (all f, (_, f.run, last f))
]
  where
    below : (k : ℕ) → Granted s k (pageframe_request s) → UsedBetween s.pageframemap 0 k
    below k g j a b = elim (dec_lt j s.current_index) [
      | yes h ↦ tight j a h
      | no h ↦ g.skipped j (omega arith) b
    ]

    mine :
        (k : ℕ)
        → Granted s k (pageframe_request s)
        → bitmap_get (fill 1 k true s.pageframemap) k ≡ true
    mine k g = ground (arith, used-fill s r.valid 1 k k true, g.inside)

    after :
        (k : ℕ)
        → Granted s k (pageframe_request s)
        → UsedBetween (fill 1 k true s.pageframemap) 0 (k + 1)
    after k g j a b = ground (arith, used-fill s r.valid 1 k j true, g.inside, below k g j)

    all : Refused s (pageframe_request s) → UsedBetween s.pageframemap 0 (map_pages s)
    all f j a b = elim (dec_lt j s.current_index) [
      | yes h ↦ tight j a h
      | no h ↦ f.all_used j (omega arith) b
    ]

    last :
        Refused s (pageframe_request s)
        → UsedBetween s.pageframemap 0
            (if ltb s.current_index (map_pages s) then map_pages s else s.current_index)
    last f j a b = elim (dec_lt j s.current_index) [
      | yes h ↦ tight j a h
      | no h ↦ f.all_used j (omega arith) (ground arith)
    ]

-- `pageframe_request_pages` breaks the promise. For a ready allocator whose free page `j` is not below
-- the current index, with no run of `pages` free pages from the current index up to `j`, but one behind
-- `j` inside the bitmap: the request returns the address of a page behind `j`; page `j` stays free and
-- lies below the new current index, where no later request looks for it.
pub pageframe_request_pages-gap :
    (s : Pageframe) (pages j m : ℕ)
    → IsReady s
    → 0 < pages
    → pages < 2 ^ 52
    → s.current_index ≤ j
    → page_used s j ≡ false
    → NoRun s.pageframemap pages s.current_index (j + 1)
    → j < m
    → m + pages ≤ map_pages s
    → FreeBetween s.pageframemap m (m + pages)
    → (k : ℕ) × (t : Pageframe) × (j < k)
      × (pageframe_request_pages pages s ≡ ok (k * memory_page_size) t)
      × (page_used t j ≡ false)
      × (j < t.current_index)
pageframe_request_pages-gap s pages j m r some few from free none_yet behind inside run =
    elim (Outcome.pageframe_request_pages_lem s pages r few) [
      | inl (k, g) ↦
          let after : j < k = elim (dec_lt j k) [
            | yes h ↦ h
            | no h ↦ absurd (none_yet k g.from (omega arith) g.was_free)
          ] in
          (
            k,
            locked pages k (record s { current_index = k + pages }),
            after,
            g.run,
            ground (arith, used-fill s r.valid pages k j true, g.inside),
            omega arith,
          )
      | inr (inl (k, o)) ↦ absurd (o.lowest m (omega arith) (omega (arith, o.ends, inside)) run)
      | inr (inr f) ↦ absurd (f.no_run m (omega arith) (omega (arith, inside)) run)
    ]

-- Giving a requested page back restores every page's state, the used size, and makes the page the
-- next one to be given out.
pub free-request :
    (s : Pageframe) (k : ℕ)
    → IsReady s
    → Granted s k (pageframe_request s)
    → s.memory_used_size + memory_page_size < u64_mod
    → (t u : Pageframe) × (pageframe_request s ≡ ok (k * memory_page_size) t)
      × (pageframe_free (k * memory_page_size) 1 t ≡ ok tt u)
      × ((j : ℕ) → page_used u j ≡ page_used s j)
      × (u.memory_used_size ≡ s.memory_used_size)
      × (u.current_index ≡ k)
free-request s k r g room = (t, freed 1 k t, g.run, back, same, omega (arith, room), ground arith)
  where
    t : Pageframe
    t = locked 1 k (record s { current_index = k + 1 })

    moved : IsValid (record s { current_index = k + 1 })
    moved = move-IsValid s (k + 1) s.mutex r.valid (omega (arith, g.inside, r.valid.small))

    valid : IsValid t
    valid = locked-IsValid 1 k (record s { current_index = k + 1 }) moved

    index : k * memory_page_size / memory_page_size ≡ k
    index = omega arith

    back : pageframe_free (k * memory_page_size) 1 t ≡ ok tt (freed 1 k t)
    back =
        let run : pageframe_free (k * memory_page_size) 1 t
            ≡ ok tt (freed 1 (k * memory_page_size / memory_page_size) t) =
          pageframe_free-freed (k * memory_page_size) 1 t valid
            (rw (index, size-fill) (omega (arith, g.inside))) r.free_off in
        rw index at run

    same : (j : ℕ) → bitmap_get (fill 1 k false (fill 1 k true s.pageframemap)) j ≡ page_used s j
    same j = ground (
      arith,
      g.inside,
      g.was_free,
      size-fill 1 k true s.pageframemap,
      used-fill s r.valid 1 k j true,
      used-fill t valid 1 k j false,
    )
