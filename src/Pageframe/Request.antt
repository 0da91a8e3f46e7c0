-- ===== src/Pageframe/Request.antt =====
-- `pageframe_request`: one page.
use native.Mathlib.Decide.{dec_lt}
use visual_os.Base.{
  lt→ltb, le→ltb, ℕ, zero, suc, ◌+◌, ◌-◌, ◌*◌, ◌/◌, ◌^◌, ◌≤◌, ◌<◌, ◌≡◌, refl, Bool, true, false,
  arith, ◌==◌, ltb, if◌then◌else◌, u64_mod, inl, inr, Bool-cases, ◌⊎◌, add64, mul64, ap, ◌∙◌,
}
use visual_os.Base.Run.{Run, ok}
use visual_os.Atomic.{bt, bts}
use visual_os.Atomic.Laws.{bts-bt_ne}
use visual_os.Bitmap.{Bitmap, bitmap_adjusted_size, bitmap_get}
use visual_os.Pageframe.{
  Pageframe, null, memory_page_size, mutex_lock, mutex_free, mutex_request, skip_used, take_pages,
  no_pages, request_step, pageframe_lock, pageframe_request,
}
use visual_os.Pageframe.Update.{
  IsValid, map_pages, locked, spinlock-ok, unlock-ok, pageframe_lock-locked,
}

abbrev pub page_used : Pageframe → ℕ → Bool
page_used s i = bitmap_get s.pageframemap i

-- Every page of `[from, to)` is in use.
abbrev pub UsedBetween : Bitmap → ℕ → ℕ → Type 0
UsedBetween map from to = (j : ℕ) → from ≤ j → j < to → bitmap_get map j ≡ true

-- The loop stops at the first free page of its range, or at the end of it.
record Skipped (map : Bitmap) (n i k : ℕ) : Type 0 where
  from : i ≤ k
  to : k ≤ i + n
  used : UsedBetween map i k
  free : k < i + n → bitmap_get map k ≡ false

skip_used-Skipped : (n i : ℕ) (map : Bitmap) → Skipped map n i (skip_used n map i)
unfolding skip_used
skip_used-Skipped zero i map = record {
  from = omega arith;
  to = omega arith;
  used = λ j a b. absurd (omega arith);
  free = λ h. absurd (omega arith);
}
skip_used-Skipped (suc n) i map =
    let rest : Skipped map n (i + 1) (skip_used n map (i + 1)) = skip_used-Skipped n (i + 1) map in
    elim (Bool-cases (bitmap_get map i)) [
      | inl on ↦
          rw (on, skip_used)
            (record {
              from = omega (arith, rest.from);
              to = omega (arith, rest.to);
              used = λ j a b. elim (Bool-cases (i == j)) [
                | inl e ↦ ground arith
                | inr ne ↦ rest.used j (ground arith) b
              ];
              free = λ h. rest.free (omega arith);
            })
      | inr off ↦
          rw (off, skip_used)
            (record {
              from = omega arith;
              to = omega arith;
              used = λ j a b. absurd (omega arith);
              free = λ h. off;
            })
    ]

-- What the allocator needs to work: valid variables, and no lock bit that it takes is on.
pub record IsReady (s : Pageframe) : Type 0 where
  pub valid : IsValid s
  pub request_off : bt s.mutex mutex_request ≡ false
  pub lock_off : bt s.mutex mutex_lock ≡ false
  pub free_off : bt s.mutex mutex_free ≡ false

-- The state while the REQUEST bit is held.
abbrev pub requesting : Pageframe → Pageframe
requesting s = record s { mutex = (bts s.mutex mutex_request).0 }

pub move-IsValid :
    (s : Pageframe) (c m : ℕ)
    → IsValid s
    → c < u64_mod
    → IsValid (record s { current_index = c; mutex = m })
move-IsValid s c m v h = record {
  bytes = v.bytes;
  small = v.small;
  used_word = v.used_word;
  used_pages = v.used_pages;
  reserved_word = v.reserved_word;
  reserved_pages = v.reserved_pages;
  current_word = h;
}

module _ (s : Pageframe) (pages current : ℕ) (r : IsReady s)
    (inside : current + pages ≤ map_pages s) where
  small : map_pages s < 2 ^ 52
  small = r.valid.small

  page_address : mul64 current memory_page_size ≡ current * memory_page_size
  page_address = let h : map_pages s < 2 ^ 52 = small in omega arith

  next_index : add64 current pages ≡ current + pages
  next_index = let h : map_pages s < 2 ^ 52 = small in omega arith

  abbrev held : Pageframe
  held = record (requesting s) { current_index = current + pages }

  held-lock :
      pageframe_lock (current * memory_page_size) pages held ≡ ok tt (locked pages current held)
  held-lock =
      let index : current * memory_page_size / memory_page_size ≡ current = omega arith in
      let run : pageframe_lock (current * memory_page_size) pages held
          ≡ ok tt (locked pages (current * memory_page_size / memory_page_size) held) =
        pageframe_lock-locked (current * memory_page_size) pages held
          (move-IsValid s (current + pages) _ r.valid (omega (arith, small))) (rw index inside)
          (rw (bts-bt_ne mutex_request mutex_lock s.mutex (omega arith)) r.lock_off) in
      rw index at run

  -- Taking pages that lie inside the bitmap.
  pub take_pages-locked :
      take_pages pages (record (requesting s) { current_index = current })
      ≡ ok
          (current * memory_page_size)
          (locked pages current (record s { current_index = current + pages }))
  unfolding take_pages
  take_pages-locked = rw (
    page_address,
    next_index,
    held-lock,
    unlock-ok mutex_request s.mutex (locked pages current held) r.request_off refl,
  )

pub no_pages-null :
    (s : Pageframe) (current : ℕ)
    → IsReady s
    → no_pages (record (requesting s) { current_index = current })
      ≡ ok null (record s { current_index = current })
unfolding no_pages
no_pages-null s current r = rw (
    unlock-ok mutex_request s.mutex (record (requesting s) { current_index = current })
      r.request_off refl)

-- The current index where the search for one page ends.
unfoldable pub search_end : Pageframe → ℕ
search_end s =
    skip_used (bitmap_adjusted_size s.pageframemap - s.current_index) s.pageframemap s.current_index

search_end-Skipped :
    (s : Pageframe)
    → Skipped s.pageframemap
        (bitmap_adjusted_size s.pageframemap - s.current_index)
        s.current_index
        (search_end s)
unfolding search_end
search_end-Skipped s = skip_used-Skipped _ s.current_index s.pageframemap

-- The outcomes of a request for one page: the first free page `k` from the current index on, or
-- `NULL` because there is none.
pub record Granted (s : Pageframe) (k : ℕ) (r : Run Pageframe ℕ) : Type 0 where
  pub from : s.current_index ≤ k
  pub inside : k < map_pages s
  pub was_free : page_used s k ≡ false
  pub skipped : UsedBetween s.pageframemap s.current_index k
  pub run : r ≡ ok (k * memory_page_size) (locked 1 k (record s { current_index = k + 1 }))

pub record Refused (s : Pageframe) (r : Run Pageframe ℕ) : Type 0 where
  pub all_used : UsedBetween s.pageframemap s.current_index (map_pages s)
  pub run :
      r
      ≡ ok null (record s {
        current_index = if ltb s.current_index (map_pages s) then map_pages s else s.current_index;
      })

pageframe_request-step :
    (s : Pageframe)
    → IsReady s
    → pageframe_request s ≡ request_step (record (requesting s) { current_index = search_end s })
unfolding pageframe_request search_end
pageframe_request-step s r = rw (spinlock-ok mutex_request s r.request_off)

step-take :
    (s : Pageframe)
    → s.current_index < bitmap_adjusted_size s.pageframemap
    → request_step s ≡ take_pages 1 s
unfolding request_step
step-take s h = rw (lt→ltb _ _ h)

step-none :
    (s : Pageframe)
    → bitmap_adjusted_size s.pageframemap ≤ s.current_index
    → request_step s ≡ no_pages s
unfolding request_step
step-none s h = rw (le→ltb _ _ h)

pub request-Granted :
    (s : Pageframe)
    → IsReady s
    → search_end s < map_pages s
    → Granted s (search_end s) (pageframe_request s)
request-Granted s r more = record {
  from = found.from;
  inside = more;
  was_free = found.free (omega (arith, small));
  skipped = found.used;
  run =
      pageframe_request-step s r
      ∙ step-take _ (omega (arith, small))
      ∙ take_pages-locked s 1 (search_end s) r (omega arith);
}
  where
    small : map_pages s < 2 ^ 52
    small = r.valid.small

    found :
        Skipped s.pageframemap
          (bitmap_adjusted_size s.pageframemap - s.current_index)
          s.current_index
          (search_end s)
    found = search_end-Skipped s

request-Refused :
    (s : Pageframe) → IsReady s → map_pages s ≤ search_end s → Refused s (pageframe_request s)
request-Refused s r none_left = record {
  all_used = λ j a b. found.used j a (omega (arith, small));
  run =
      pageframe_request-step s r
      ∙ step-none _ (omega (arith, small))
      ∙ no_pages-null s (search_end s) r
      ∙ ap (λ c. ok null (record s { current_index = c })) last;
}
  where
    small : map_pages s < 2 ^ 52
    small = r.valid.small

    found :
        Skipped s.pageframemap
          (bitmap_adjusted_size s.pageframemap - s.current_index)
          s.current_index
          (search_end s)
    found = search_end-Skipped s

    last :
        search_end s ≡ (if ltb s.current_index (map_pages s) then map_pages s else s.current_index)
    last = ground (arith, found.from, found.to, small)

-- A ready `pageframe_request` always returns. It gives out the first free page from the current
-- index on, locked and counted as used, with the index behind it; or `NULL`, if every page from the
-- index on is in use. All lock bits are given back, and nothing else of the state changes.
pub pageframe_request_lem :
    (s : Pageframe)
    → IsReady s
    → ((k : ℕ) × Granted s k (pageframe_request s)) ⊎ Refused s (pageframe_request s)
pageframe_request_lem s r = elim (dec_lt (search_end s) (map_pages s)) [
  | yes more ↦ inl (search_end s, request-Granted s r more)
  | no none_left ↦ inr (request-Refused s r (omega arith))
]
