-- ===== src/Boot/Measure.antt =====
-- What the first loop of pageframe_init finds: the total size, and the largest usable region.
use visual_os.Base.{
  ℕ, zero, suc, ◌+◌, ◌*◌, ◌≤◌, ◌<◌, ◌≡◌, true, Option, none, some, arith, if◌then◌else◌, u64_mod,
  ◌∙◌, for_range, for_range-zero, for_range-suc, inl, inr, ◌⊎◌, ◌&&◌, Bool-cases, lt→ltb,
}
use native.Mathlib.Decide.{dec_lt}
use visual_os.Pageframe.{memory_page_size}
use visual_os.Paging.Regions.{MemoryMap}
use visual_os.Boot.Pageframes.{is_usable, exceeds, measure_region}

-- The pages of all regions from region `i` on, and those of the usable ones.
abbrev pub pages_from : (rounds i : ℕ) → MemoryMap → ℕ
pages_from zero i memorymap = 0
pages_from (suc rounds) i memorymap =
    (memorymap.entries i).num_pages + pages_from rounds (i + 1) memorymap

abbrev pub usable_from : (rounds i : ℕ) → MemoryMap → ℕ
usable_from zero i memorymap = 0
usable_from (suc rounds) i memorymap =
    (if is_usable (memorymap.entries i) then (memorymap.entries i).num_pages else 0)
    + usable_from rounds (i + 1) memorymap

pub usable-le-pages :
    (rounds i : ℕ) (memorymap : MemoryMap)
    → usable_from rounds i memorymap ≤ pages_from rounds i memorymap
usable-le-pages zero i memorymap = omega arith
usable-le-pages (suc rounds) i memorymap = ground (arith, usable-le-pages rounds (i + 1) memorymap)

pub total-pages :
    (rounds i : ℕ) (memorymap : MemoryMap) (largest : Option ℕ) (total : ℕ)
    → total + pages_from rounds i memorymap * memory_page_size < u64_mod
    → (for_range (measure_region memorymap) rounds i (largest, total)).1
      ≡ total + pages_from rounds i memorymap * memory_page_size
unfolding measure_region
total-pages zero i memorymap largest total h =
    rw (for_range-zero (measure_region memorymap) i (largest, total)) (omega arith)
total-pages (suc rounds) i memorymap largest total h =
    rw (for_range-suc (measure_region memorymap) rounds i (largest, total))
      (total-pages rounds (i + 1) memorymap _ _ (omega arith) ∙ omega arith)

-- The first of the largest usable regions.
pub record IsLargest (memorymap : MemoryMap) (k : ℕ) : Type 0 where
  pub listed : k < memorymap.entries_num
  pub usable : is_usable (memorymap.entries k) ≡ true
  pub most :
      (j : ℕ)
      → j < memorymap.entries_num
      → is_usable (memorymap.entries j) ≡ true
      → (memorymap.entries j).num_pages ≤ (memorymap.entries k).num_pages
  pub first :
      (j : ℕ)
      → j < k
      → is_usable (memorymap.entries j) ≡ true
      → (memorymap.entries j).num_pages < (memorymap.entries k).num_pages

module _ (memorymap : MemoryMap) (k : ℕ) (l : IsLargest memorymap k) where
  abbrev Below : Option ℕ → Type 0
  Below none = Unit
  Below (some j) = (memorymap.entries j).num_pages < (memorymap.entries k).num_pages

  -- Where the loop stands at region `i`.
  abbrev Found : ℕ → Option ℕ → Type 0
  Found i largest = ((i ≤ k) × Below largest) ⊎ ((k < i) × (largest ≡ some k))

  -- A region in front of region `k` is smaller, and region `k` is larger than all before it.
  choose : ℕ → Option ℕ → Option ℕ
  choose i largest =
      if is_usable (memorymap.entries i) && exceeds memorymap (memorymap.entries i) largest
      then some i
      else largest

  before : (i : ℕ) (largest : Option ℕ) → i < k → Below largest → Below (choose i largest)
  unfolding choose
  before i largest lt b =
      elim (Bool-cases
        (is_usable (memorymap.entries i) && exceeds memorymap (memorymap.entries i) largest)) [
          | inl e ↦ rw e (l.first i lt (ground arith))
          | inr e ↦ rw e b
        ]

  here : (largest : Option ℕ) → Below largest → choose k largest ≡ some k
  unfolding choose
  here none b = rw l.usable
  here (some j) b = rw (l.usable, lt→ltb _ _ b)

  behind : (i : ℕ) → i < memorymap.entries_num → choose i (some k) ≡ some k
  unfolding choose
  behind i h = ground (arith, l.most i h)

  choose-Found :
      (i : ℕ) (largest : Option ℕ)
      → i < memorymap.entries_num
      → Found i largest
      → Found (i + 1) (choose i largest)
  choose-Found i largest h (inl (le, b)) = elim (dec_lt i k) [
    | yes lt ↦ inl (omega arith, before i largest lt b)
    | no ge ↦ let same : i ≡ k = omega arith in inr (omega arith, rw same (here largest b))
  ]
  choose-Found i largest h (inr (lt, e)) = inr (omega arith, rw e (behind i h))

  find :
      (rounds i : ℕ) (largest : Option ℕ) (total : ℕ)
      → i + rounds ≡ memorymap.entries_num
      → Found i largest
      → (for_range (measure_region memorymap) rounds i (largest, total)).0 ≡ some k
  unfolding choose measure_region
  find zero i largest total h f =
      rw (for_range-zero (measure_region memorymap) i (largest, total))
        (elim f [ inl (le, b) ↦ absurd (omega (arith, l.listed)) | inr (lt, e) ↦ e ])
  find (suc rounds) i largest total h f =
      rw (for_range-suc (measure_region memorymap) rounds i (largest, total))
        (find rounds (i + 1) _ _ (omega arith) (choose-Found i largest (omega arith) f))

  pub largest-found :
      (total : ℕ)
      → (for_range (measure_region memorymap) memorymap.entries_num 0 (none, total)).0 ≡ some k
  largest-found total =
      find memorymap.entries_num 0 none total (omega arith) (inl (omega arith, tt))
