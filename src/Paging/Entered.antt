-- ===== src/Paging/Entered.antt =====
-- What one level of `paging_map_page` in src/kernel/memory/paging.c leaves, and the entry that it
-- writes.
use native.Mathlib.Decide.{ℕ_discrete}
use visual_os.Base.{
  ℕ, suc, ◌+◌, ◌*◌, ◌/◌, ◌%◌, ◌^◌, ◌<◌, ◌≡◌, ◌≢◌, refl, true, false, some, ◌==◌, ◌&&◌, bit_or,
  update, u64_mod, arith, ap, ◌∙◌, if◌then◌else◌, inl, inr, Bool-cases,
}
use visual_os.Base.Run.{Run, ok}
use visual_os.Paging.{Paging, put_entry, page_directory_present, paging_set_entry_address}
use visual_os.Paging.EntryLaws.{set_entry_address_lem, or_present}
use visual_os.Paging.Walk.{enter, WellFormed, Enough}

-- A new entry, for the page `k` of 4096 bytes.
abbrev pub entry_of : ℕ → ℕ → ℕ
entry_of entry k = bit_or (paging_set_entry_address entry k) (2 ^ page_directory_present)

pub entry_of_lem :
    (e k : ℕ)
    → e < u64_mod
    → k < 2 ^ 40
    → (entry_of e k % 2 ≡ 1) × (entry_of e k / 2 ^ 12 % 2 ^ 40 ≡ k) × (entry_of e k < u64_mod)
entry_of_lem e k he hk =
    let value : entry_of e k
        ≡ (e / 2 ^ 52 * 2 ^ 52 + k % 2 ^ 40 * 2 ^ 12 + e % 2 ^ 12) / 2 * 2 + 1 =
      or_present (paging_set_entry_address e k)
      ∙ ap (λ x. x / 2 * 2 + 1) (set_entry_address_lem e k he) in
    rw value (omega arith)

-- The bit of large pages is as it was.
pub entry_of-large : (e k : ℕ) → e < u64_mod → k < 2 ^ 40 → entry_of e k / 2 ^ 7 % 2 ≡ e / 2 ^ 7 % 2
entry_of-large e k he hk =
    let value : entry_of e k
        ≡ (e / 2 ^ 52 * 2 ^ 52 + k % 2 ^ 40 * 2 ^ 12 + e % 2 ^ 12) / 2 * 2 + 1 =
      or_present (paging_set_entry_address e k)
      ∙ ap (λ x. x / 2 * 2 + 1) (set_entry_address_lem e k he) in
    rw value (omega arith)

-- The outcome of `next_level` at entry `i` of the table `t` of level `n + 2`.
pub record Entered (level : ℕ → ℕ) (s : Paging) (t i n m : ℕ) (r : Run Paging ℕ) : Type 0 where
  pub table : ℕ
  pub after : Paging
  pub level' : ℕ → ℕ
  pub run : r ≡ ok table after
  pub formed : WellFormed level' after
  pub enough : Enough m after.pageframe
  pub is_level : level' table ≡ suc n
  pub keeps_level : (x : ℕ) → level x ≢ 0 → level' x ≡ level x
  pub entered : enter after.tables t i ≡ some table
  pub keeps_present :
      (x j c : ℕ) → level x ≢ 0 → enter s.tables x j ≡ some c → enter after.tables x j ≡ some c

pub eq-false : (x y : ℕ) → x ≢ y → (x == y) ≡ false
eq-false x y h = ground arith

pub eq-true : (x : ℕ) → (x == x) ≡ true
eq-true x = ground arith

pub put_entry-at :
    (tables : ℕ → ℕ → ℕ) (t i e x j : ℕ)
    → put_entry tables t i e x j ≡ (if t == x && i == j then e else tables x j)
put_entry-at tables t i e x j = elim (ℕ_discrete t x) [
  | yes h ↦ rw (h, eq-true) refl
  | no h ↦ rw (eq-false t x h) refl
]

pub update-at :
    (tables : ℕ → ℕ → ℕ) (f : ℕ) (g : ℕ → ℕ) (x j : ℕ)
    → update tables f g x j ≡ (if f == x then g j else tables x j)
update-at tables f g x j = elim (Bool-cases (f == x)) [ inl h ↦ rw h refl | inr h ↦ rw h refl ]
