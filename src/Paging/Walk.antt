-- ===== src/Paging/Walk.antt =====
-- What the processor does with the page tables: the walk from the level 4 table, written from the
-- layout of x86_64 entries and not from the code. And the shape of the tables that the kernel keeps.
use mathlib.Core.Option.{none-ne-some, some-injective}
use visual_os.Base.{
  ℕ, suc, zero, ◌+◌, ◌*◌, ◌/◌, ◌%◌, ◌^◌, ◌<◌, ◌≤◌, ◌≡◌, ◌≢◌, refl, true, Option, none, some, ◌==◌,
  if◌then◌else◌, u64_mod, ap,
}
use visual_os.Pageframe.{Pageframe, pageframe_request}
use visual_os.Pageframe.Update.{map_pages, locked}
use visual_os.Pageframe.Request.{IsReady, page_used, Granted}
use visual_os.Paging.{Paging}

-- Bit 0 says that an entry is present; bits 12 to 51 are the page that it points to. In the tables of
-- the levels 4 to 2 this holds for an entry whose bit 7 is off; with it on, which the shape below
-- excludes, a walk would end there at a large page.
unfoldable pub entry_target : ℕ → Option ℕ
entry_target entry = if entry % 2 == 1 then some (entry / 2 ^ 12 % 2 ^ 40 * 2 ^ 12) else none

abbrev pub enter : (ℕ → ℕ → ℕ) → ℕ → ℕ → Option ℕ
enter tables table index = entry_target (tables table index)

module _ {A B : Type 0} where
  infixl 5 ◌>>=◌
  abbrev ◌>>=◌ : Option A → (A → Option B) → Option B
  none >>= k = none
  some a >>= k = k a

  bind-some :
      (o : Option A) (k : A → Option B) (b : B)
      → (o >>= k) ≡ some b
      → (a : A) × (o ≡ some a) × (k a ≡ some b)
  bind-some none k b e = absurd (none-ne-some b e)
  bind-some (some a) k b e = (a, refl, e)

-- The physical address of a virtual address, or a page fault.
unfoldable pub translate : (ℕ → ℕ → ℕ) → (pagetable_l4 address : ℕ) → Option ℕ
translate tables pagetable_l4 address = do
  l3 ← enter tables pagetable_l4 (address / 2 ^ 39 % 512)
  l2 ← enter tables l3 (address / 2 ^ 30 % 512)
  l1 ← enter tables l2 (address / 2 ^ 21 % 512)
  page ← enter tables l1 (address / 2 ^ 12 % 512)
  some (page + address % 2 ^ 12)

-- The tables and the page that a walk enters.
pub record Path4 (tables : ℕ → ℕ → ℕ) (l4 address p : ℕ) : Type 0 where
  pub l3 : ℕ
  pub l2 : ℕ
  pub l1 : ℕ
  pub page : ℕ
  pub at4 : enter tables l4 (address / 2 ^ 39 % 512) ≡ some l3
  pub at3 : enter tables l3 (address / 2 ^ 30 % 512) ≡ some l2
  pub at2 : enter tables l2 (address / 2 ^ 21 % 512) ≡ some l1
  pub at1 : enter tables l1 (address / 2 ^ 12 % 512) ≡ some page
  pub sum : page + address % 2 ^ 12 ≡ p

pub translate_of :
    {tables : ℕ → ℕ → ℕ} {l4 a p : ℕ} → Path4 tables l4 a p → translate tables l4 a ≡ some p
unfolding translate
translate_of w = rw (w.at4, w.at3, w.at2, w.at1, w.sum) refl

pub path_of :
    (tables : ℕ → ℕ → ℕ) (l4 a p : ℕ) → translate tables l4 a ≡ some p → Path4 tables l4 a p
unfolding translate
path_of tables l4 a p e =
    let (l3, at4, rest4) = bind-some _ _ p e in
    let (l2, at3, rest3) = bind-some _ _ p rest4 in
    let (l1, at2, rest2) = bind-some _ _ p rest3 in
    let (page, at1, rest1) = bind-some _ _ p rest2 in
    record {
      l3 = l3;
      l2 = l2;
      l1 = l1;
      page = page;
      at4 = at4;
      at3 = at3;
      at2 = at2;
      at1 = at1;
      sum = some-injective _ p rest1;
    }

-- The walk reads the tables through `enter` only.
pub translate-enter :
    (tables tables' : ℕ → ℕ → ℕ)
    → ((t i : ℕ) → enter tables' t i ≡ enter tables t i)
    → (l4 a : ℕ) → translate tables' l4 a ≡ translate tables l4 a
unfolding translate
translate-enter tables tables' same l4 a =
    ap
      (λ (f : ℕ → ℕ → Option ℕ). f l4 (a / 2 ^ 39 % 512) >>= λ l3. f l3 (a / 2 ^ 30 % 512) >>= λ l2.
        f l2 (a / 2 ^ 21 % 512) >>= λ l1.
        f l1 (a / 2 ^ 12 % 512) >>= λ page. some (page + a % 2 ^ 12))
      (λ k t i. same t i k)

-- `level t` is 4 for a level 4 table, down to 1, and 0 for what is no table. Tables lie in pages
-- that the allocator has given out, an entry of a table points to a table of the next level, and no
-- two entries point to the same table. No entry of the levels 4 to 2 has the bit of a large page.
pub record WellFormed (level : ℕ → ℕ) (s : Paging) : Type 0 where
  pub ready : IsReady s.pageframe
  pub small : map_pages s.pageframe ≤ 2 ^ 40
  pub words : (t i : ℕ) → s.tables t i < u64_mod
  pub no_large : (t i : ℕ) → 2 ≤ level t → i < 512 → s.tables t i / 2 ^ 7 % 2 ≡ 0
  pub aligned : (t : ℕ) → level t ≢ 0 → t % 4096 ≡ 0
  pub owned : (t : ℕ) → level t ≢ 0 → page_used s.pageframe (t / 4096) ≡ true
  pub child :
      (t i n c : ℕ)
      → level t ≡ suc (suc n)
      → i < 512
      → enter s.tables t i ≡ some c
      → level c ≡ suc n
  pub tree :
      (t i u j c : ℕ)
      → 2 ≤ level t
      → 2 ≤ level u
      → i < 512
      → j < 512
      → enter s.tables t i ≡ some c
      → enter s.tables u j ≡ some c
      → (t ≡ u) × (i ≡ j)

-- The next `n` calls of `pageframe_request` give out a page.
abbrev pub Enough : ℕ → Pageframe → Type 0
Enough zero s = Unit
Enough (suc n) s =
    (k : ℕ) × Granted s k (pageframe_request s)
    × Enough n (locked 1 k (record s { current_index = k + 1 }))
