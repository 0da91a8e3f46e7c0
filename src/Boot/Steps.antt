-- ===== src/Boot/Steps.antt =====
-- The calls of pageframe_init on the allocator: what each makes of the sizes and of the pages.
use visual_os.Base.{
  ℕ, ◌+◌, ◌-◌, ◌*◌, ◌/◌, ◌≤◌, ◌<◌, ◌≡◌, Bool, true, false, not, arith, ◌&&◌, ◌||◌, ltb, leb,
  if◌then◌else◌, u64_mod, ◌∙◌,
}
use visual_os.Base.Run.{ok}
use visual_os.Bitmap.{bitmap_get}
use visual_os.Pageframe.{
  Pageframe, memory_page_size, pageframe_lock, pageframe_reserve, pageframe_unreserve,
}
use visual_os.Pageframe.Pages.{fill, bitmap_get-fill, size-fill}
use visual_os.Pageframe.Update.{
  map_pages, locked, reserved, unreserved, pageframe_lock-locked, pageframe_reserve-reserved,
  pageframe_unreserve-unreserved, locked-IsValid, reserved-IsValid, unreserved-IsValid,
}
use visual_os.Pageframe.Request.{IsReady, page_used}

-- Whether page `j` is one of the `pages` pages from the address on.
abbrev pub covered : (physical_address pages j : ℕ) → Bool
covered physical_address pages j =
    let start = physical_address / memory_page_size in leb start j && ltb j (start + pages)

-- A ready allocator of `total` pages that has counted `used` and `kept` pages as used and reserved,
-- searches from page 0 on, and in which the pages are in use that `taken` says.
pub record Holds (total used kept : ℕ) (taken : ℕ → Bool) (s : Pageframe) : Type 0 where
  pub ready : IsReady s
  pub pages : map_pages s ≡ total
  pub size : s.memory_total_size ≡ total * memory_page_size
  pub used_size : s.memory_used_size ≡ used * memory_page_size
  pub reserved_size : s.memory_reserved_size ≡ kept * memory_page_size
  pub from_zero : s.current_index ≡ 0
  pub page : (j : ℕ) → j < total → page_used s j ≡ taken j

module _ (total used kept : ℕ) (taken : ℕ → Bool) (s : Pageframe)
    (h : Holds total used kept taken s) (physical_address pages : ℕ)
    (inside : physical_address / memory_page_size + pages ≤ total) where
  abbrev start : ℕ
  start = physical_address / memory_page_size

  in_map : start + pages ≤ map_pages s
  in_map = rw h.pages inside

  filled :
      (b : Bool) (j : ℕ)
      → j < total
      → bitmap_get (fill pages start b s.pageframemap) j
        ≡ (if covered physical_address pages j then b else taken j)
  filled b j lt =
      bitmap_get-fill pages start j b s.pageframemap h.ready.valid.bytes
        (omega (arith, in_map, h.ready.valid.small))
      ∙ rw (h.page j lt)

  pub lock-Holds :
      (used + pages) * memory_page_size < u64_mod
      → (t : Pageframe) × (pageframe_lock physical_address pages s ≡ ok tt t)
        × Holds total (used + pages) kept (λ j. covered physical_address pages j || taken j) t
  lock-Holds small = (
    locked pages start s,
    pageframe_lock-locked physical_address pages s h.ready.valid in_map h.ready.lock_off,
    record {
      ready = record {
        valid = locked-IsValid pages start s h.ready.valid;
        request_off = h.ready.request_off;
        lock_off = h.ready.lock_off;
        free_off = h.ready.free_off;
      };
      pages = rw (size-fill pages start true s.pageframemap) h.pages;
      size = h.size;
      used_size = omega (arith, h.used_size);
      reserved_size = h.reserved_size;
      from_zero = h.from_zero;
      page = λ j lt. filled true j lt ∙ ground arith;
    },
  )

  pub reserve-Holds :
      (kept + pages) * memory_page_size < u64_mod
      → (t : Pageframe) × (pageframe_reserve physical_address pages s ≡ ok tt t)
        × Holds total used (kept + pages) (λ j. covered physical_address pages j || taken j) t
  reserve-Holds small = (
    reserved pages start s,
    pageframe_reserve-reserved physical_address pages s h.ready.valid in_map h.ready.lock_off,
    record {
      ready = record {
        valid = reserved-IsValid pages start s h.ready.valid;
        request_off = h.ready.request_off;
        lock_off = h.ready.lock_off;
        free_off = h.ready.free_off;
      };
      pages = rw (size-fill pages start true s.pageframemap) h.pages;
      size = h.size;
      used_size = h.used_size;
      reserved_size = omega (arith, h.reserved_size);
      from_zero = h.from_zero;
      page = λ j lt. filled true j lt ∙ ground arith;
    },
  )

  pub unreserve-Holds :
      (t : Pageframe) × (pageframe_unreserve physical_address pages s ≡ ok tt t)
      × Holds total used (kept - pages) (λ j. not (covered physical_address pages j) && taken j) t
  unreserve-Holds = (
    unreserved pages start s,
    pageframe_unreserve-unreserved physical_address pages s h.ready.valid in_map h.ready.free_off,
    record {
      ready = record {
        valid = unreserved-IsValid pages start s h.ready.valid;
        request_off = h.ready.request_off;
        lock_off = h.ready.lock_off;
        free_off = h.ready.free_off;
      };
      pages = rw (size-fill pages start false s.pageframemap) h.pages;
      size = h.size;
      used_size = h.used_size;
      reserved_size = omega (arith, h.reserved_size);
      from_zero = ground (arith, h.from_zero);
      page = λ j lt. filled false j lt ∙ ground arith;
    },
  )
