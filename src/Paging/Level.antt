-- ===== src/Paging/Level.antt =====
-- One level of `paging_map_page`: the entry is present afterwards, and the tables keep their shape.
use native.Mathlib.Decide.{ℕ_discrete}
use visual_os.Paging.Supply.{Enough-weaken}
use visual_os.Paging.Entered.{Entered}
use visual_os.Paging.NewTable.{absent-Entered}
use visual_os.Base.{ℕ, suc, ◌*◌, ◌/◌, ◌%◌, ◌^◌, ◌<◌, ◌≡◌, refl, true, u64_mod, arith}
use visual_os.Base.Libc.{Libc}
use visual_os.Base.Run.{ok}
use visual_os.Paging.{Paging, next_level, page_directory_present, get_bit}
use visual_os.Paging.EntryLaws.{get_entry_address_lem, get_bit-zero}
use visual_os.Paging.Walk.{entry_target, WellFormed, Enough}

target-mod : (e : ℕ) → e / 2 ^ 12 % 2 ^ 40 * 2 ^ 12 % u64_mod ≡ e / 2 ^ 12 % 2 ^ 40 * 2 ^ 12
target-mod e = omega arith

odd-present : (e : ℕ) → e % 2 ≡ 1 → get_bit e page_directory_present ≡ true
odd-present e p = ground (arith, get_bit-zero e)

next_level-present :
    (libc : Libc) (t i : ℕ) (s : Paging)
    → s.tables t i % 2 ≡ 1
    → next_level libc t i s ≡ ok (s.tables t i / 2 ^ 12 % 2 ^ 40 * 2 ^ 12) s
unfolding next_level
next_level-present libc t i s p =
    rw (odd-present (s.tables t i) p, get_entry_address_lem, target-mod) refl

module _ (libc : Libc) (level : ℕ → ℕ) (s : Paging) (t i n m : ℕ) (w : WellFormed level s)
    (at_level : level t ≡ suc (suc n)) (small : i < 512) (more : Enough (suc m) s.pageframe) where
  present-Entered : s.tables t i % 2 ≡ 1 → Entered level s t i n m (next_level libc t i s)
  unfolding entry_target
  present-Entered p = record {
    table = s.tables t i / 2 ^ 12 % 2 ^ 40 * 2 ^ 12;
    after = s;
    level' = level;
    run = next_level-present libc t i s p;
    formed = w;
    enough = Enough-weaken m s.pageframe more;
    is_level = w.child t i n _ at_level small (rw p);
    keeps_level = λ x h. refl;
    entered = rw p;
    keeps_present = λ x j c h e. e;
  }

  pub next_level-Entered : Entered level s t i n m (next_level libc t i s)
  next_level-Entered = elim (ℕ_discrete (s.tables t i % 2) 1) [
    | yes p ↦ present-Entered p
    | no p ↦ absent-Entered libc level s t i n m w at_level small more p more.0 more.1 more.2
  ]
