-- ===== src/Pageframe/RequestPages/Search.antt =====
-- The two loops of `pageframe_request_pages`: they end, at the first run of free pages.
use native.Mathlib.Decide.{dec_lt}
use visual_os.Base.{
  ℕ, zero, suc, ◌+◌, ◌-◌, ◌^◌, ◌≤◌, ◌<◌, ◌≡◌, refl, true, false, arith, ◌==◌, Option, none, some,
  lt→ltb, le→ltb, Option-cases, u64_mod, inl, inr, Bool-cases, ◌⊎◌, add64,
}
use visual_os.Base.Run.{Run}
use visual_os.Bitmap.{Bitmap, bitmap_get}
use visual_os.Pageframe.{Pageframe, first_used, request_loop, take_pages, no_pages}

-- No page of `[from, to)` is in use, as far as `bitmap_get` says.
abbrev pub FreeBetween : Bitmap → ℕ → ℕ → Type 0
FreeBetween map from to = (j : ℕ) → from ≤ j → j < to → bitmap_get map j ≡ false

-- No run of `pages` free pages begins in `[from, to)`.
abbrev pub NoRun : Bitmap → ℕ → ℕ → ℕ → Type 0
NoRun map pages from to = (k : ℕ) → from ≤ k → k < to → ¬ FreeBetween map k (k + pages)

abbrev Scanned : Bitmap → ℕ → ℕ → ℕ → Option ℕ → Type 0
Scanned map current j n none = FreeBetween map (current + j) (current + j + n)
Scanned map current j n (some m) = (j ≤ m) × (m < j + n) × (bitmap_get map (current + m) ≡ true)

first_used-Scanned :
    (n j current : ℕ) (map : Bitmap)
    → current + j + n < u64_mod
    → Scanned map current j n (first_used n map current j)
unfolding first_used
first_used-Scanned zero j current map h = λ k a b. absurd (omega arith)
first_used-Scanned (suc n) j current map h =
    let here : add64 current j ≡ current + j = omega arith in
    elim (Bool-cases (bitmap_get map (current + j))) [
      | inl on ↦ rw (here, on, first_used) (omega arith, omega arith, on)
      | inr off ↦
          rw (here, off, first_used)
            (later (first_used n map current (j + 1)) off
              (first_used-Scanned n (j + 1) current map (omega arith)))
    ]
  where
    later :
        (o : Option ℕ)
        → bitmap_get map (current + j) ≡ false
        → Scanned map current (j + 1) n o
        → Scanned map current j (suc n) o
    later none off free = λ k a b. elim (Bool-cases (k == current + j)) [
      | inl e ↦ ground arith
      | inr ne ↦ free k (ground arith) (omega arith)
    ]
    later (some m) off (a, b, on) = (omega arith, omega arith, on)

NoRun-hit :
    (map : Bitmap) (pages current m : ℕ)
    → m < pages
    → bitmap_get map (current + m) ≡ true
    → NoRun map pages current (current + m + 1)
NoRun-hit map pages current m h on k a b free = cc (free (current + m) (omega arith) (omega arith))

NoRun-join :
    (map : Bitmap) (pages a b c : ℕ)
    → NoRun map pages a b
    → NoRun map pages b c
    → NoRun map pages a c
NoRun-join map pages a b c left right k p q = elim (dec_lt k b) [
  | yes h ↦ left k p h
  | no h ↦ right k (omega arith) q
]

-- The loop stops at the lowest run of free pages that begins inside the bitmap.
pub record Found (s : Pageframe) (size pages k : ℕ) (r : Run Pageframe ℕ) : Type 0 where
  pub from : s.current_index ≤ k
  pub inside : k < size
  pub free : FreeBetween s.pageframemap k (k + pages)
  pub lowest : NoRun s.pageframemap pages s.current_index k
  pub run : r ≡ take_pages pages (record s { current_index = k })

-- There is no such run, and the index has passed the bitmap.
pub record Missing (s : Pageframe) (size pages last : ℕ) (r : Run Pageframe ℕ) : Type 0 where
  pub past : size ≤ last
  pub no_run : NoRun s.pageframemap pages s.current_index size
  pub run : r ≡ no_pages (record s { current_index = last })

abbrev pub Ended : Pageframe → ℕ → ℕ → Run Pageframe ℕ → Type 0
Ended s size pages r =
    ((k : ℕ) × Found s size pages k r) ⊎ ((last : ℕ) × Missing s size pages last r)

module _ (size pages : ℕ) (few : pages < 2 ^ 62) (small : size < 2 ^ 62) where
  -- A round that meets a used page goes on behind it.
  Ended-skip :
      (s : Pageframe) (m : ℕ) (r : Run Pageframe ℕ)
      → m < pages
      → bitmap_get s.pageframemap (s.current_index + m) ≡ true
      → Ended (record s { current_index = s.current_index + m + 1 }) size pages r
      → Ended s size pages r
  Ended-skip s m r h on (inl (k, f)) = inl (
    k,
    record {
      from = omega (arith, f.from);
      inside = f.inside;
      free = f.free;
      lowest =
          NoRun-join s.pageframemap pages s.current_index (s.current_index + m + 1) k
            (NoRun-hit s.pageframemap pages s.current_index m h on) f.lowest;
      run = f.run;
    },
  )
  Ended-skip s m r h on (inr (last, f)) = inr (
    last,
    record {
      past = f.past;
      no_run =
          NoRun-join s.pageframemap pages s.current_index (s.current_index + m + 1) size
            (NoRun-hit s.pageframemap pages s.current_index m h on) f.no_run;
      run = f.run;
    },
  )

  -- More fuel than pages that are left is enough.
  pub request_loop-Ended :
      (fuel : ℕ) (s : Pageframe)
      → size - s.current_index < fuel
      → Ended s size pages (request_loop fuel size pages s)
  unfolding request_loop
  request_loop-Ended zero s h = absurd (omega arith)
  request_loop-Ended (suc fuel) s h = elim (dec_lt s.current_index size) [
    | no out ↦
        rw (le→ltb s.current_index size (omega arith), request_loop)
          (inr (
            s.current_index,
            record { past = omega arith; no_run = λ k a b. absurd (omega arith); run = refl },
          ))
    | yes more ↦
        let scanned : Scanned s.pageframemap s.current_index 0 pages
            (first_used pages s.pageframemap s.current_index 0) =
          first_used-Scanned pages 0 s.current_index s.pageframemap (omega arith) in
        elim (Option-cases (first_used pages s.pageframemap s.current_index 0)) [
          | inl e ↦
              rw (lt→ltb s.current_index size more, e, request_loop)
                (inl (
                  s.current_index,
                  record {
                    from = omega arith;
                    inside = more;
                    free = λ j a b. (rw e at scanned) j (omega arith) (omega arith);
                    lowest = λ k a b. absurd (omega arith);
                    run = refl;
                  },
                ))
          | inr (m, e) ↦
              let hit : (0 ≤ m)
                  × (m < 0 + pages)
                  × (bitmap_get s.pageframemap (s.current_index + m) ≡ true) =
                rw e at scanned in
              let next : add64 s.current_index (m + 1) ≡ s.current_index + m + 1 =
                omega (arith, hit.1) in
              rw (lt→ltb s.current_index size more, e, next, request_loop)
                (Ended-skip s m _ (omega (arith, hit.1)) hit.2 (
                  request_loop-Ended fuel (record s { current_index = s.current_index + m + 1 })
                    (omega arith)))
        ]
  ]
