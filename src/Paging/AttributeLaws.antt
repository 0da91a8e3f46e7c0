-- ===== src/Paging/AttributeLaws.antt =====
-- The attributes of pages leave the walk of the processor alone.
use native.Mathlib.Nat.{pow-succ', div-div-eq-div-mul}
use visual_os.Base.{
  ℕ, zero, suc, ◌/◌, ◌%◌, ◌^◌, ◌≤◌, ◌<◌, ◌≡◌, ◌≢◌, refl, Bool, true, false, arith, sym, ◌∙◌,
  u64_mod, for_range, for_range-keeps,
}
use visual_os.Atomic.{bt, bts, btr}
use visual_os.Atomic.Laws.{bts-bt_ne, btr-bt_ne, bts-suc, btr-suc, bts-zero, btr-zero}
use visual_os.Paging.{Paging, set_bit}
use visual_os.Paging.Walk.{entry_target, enter, WellFormed}
use visual_os.Paging.SetBit.{set_bit-btx}
use visual_os.Paging.Attribute.{on_entry, on_walk}

bts-high : (k b n : ℕ) → b < k → (bts n b).0 / 2 ^ k ≡ n / 2 ^ k
bts-high zero b n l = absurd (omega arith)
bts-high (suc k) zero n l =
    rw
      (
        pow-succ',
        ← div-div-eq-div-mul (bts n 0).0 2 (2 ^ k),
        ← div-div-eq-div-mul n 2 (2 ^ k),
        bts-zero n,
      )
      refl
bts-high (suc k) (suc b) n l =
    let half : (bts n (suc b)).0 / 2 ≡ (bts (n / 2) b).0 = omega (arith, bts-suc n b) in
    rw
      (
        pow-succ',
        ← div-div-eq-div-mul (bts n (suc b)).0 2 (2 ^ k),
        ← div-div-eq-div-mul n 2 (2 ^ k),
        half,
      )
      (bts-high k b (n / 2) (omega arith))

btr-high : (k b n : ℕ) → b < k → (btr n b).0 / 2 ^ k ≡ n / 2 ^ k
btr-high zero b n l = absurd (omega arith)
btr-high (suc k) zero n l =
    rw
      (
        pow-succ',
        ← div-div-eq-div-mul (btr n 0).0 2 (2 ^ k),
        ← div-div-eq-div-mul n 2 (2 ^ k),
        btr-zero n,
      )
      refl
btr-high (suc k) (suc b) n l =
    let half : (btr n (suc b)).0 / 2 ≡ (btr (n / 2) b).0 = omega (arith, btr-suc n b) in
    rw
      (
        pow-succ',
        ← div-div-eq-div-mul (btr n (suc b)).0 2 (2 ^ k),
        ← div-div-eq-div-mul n 2 (2 ^ k),
        half,
      )
      (btr-high k b (n / 2) (omega arith))

-- A change of an entry that moves neither its page nor its present bit nor the bit of large pages.
pub record Gentle (change : ℕ → ℕ) : Type 0 where
  pub target : (n : ℕ) → entry_target (change n) ≡ entry_target n
  pub word : (n : ℕ) → n < u64_mod → change n < u64_mod
  pub large : (n : ℕ) → change n / 2 ^ 7 % 2 ≡ n / 2 ^ 7 % 2

gentle_of : (n m : ℕ) → m / 2 ^ 12 ≡ n / 2 ^ 12 → m % 2 ≡ n % 2 → entry_target m ≡ entry_target n
unfolding entry_target
gentle_of n m high low = rw (high, low) refl

-- One bit, from its test.
bit_of : (n m : ℕ) → bt m 7 ≡ bt n 7 → m / 2 ^ 7 % 2 ≡ n / 2 ^ 7 % 2
unfolding bt
bit_of n m same = ground (arith, same)

pub set_bit-Gentle :
    (bit : ℕ) (value : Bool) → 1 ≤ bit → bit < 12 → bit ≢ 7 → Gentle (λ n. set_bit n bit value)
set_bit-Gentle zero value a b other = absurd (omega arith)
set_bit-Gentle (suc bit) true a b other = record {
  large = λ n.
      rw (set_bit-btx n (suc bit) true (omega arith)) (bit_of n _ (bts-bt_ne (suc bit) 7 n other));
  target = λ n.
      rw (set_bit-btx n (suc bit) true (omega arith))
        (gentle_of n _ (bts-high 12 (suc bit) n b) (omega (arith, bts-suc n bit)));
  word = λ n l.
      rw (set_bit-btx n (suc bit) true (omega arith))
        (omega (arith, bts-high 64 (suc bit) n (omega arith)));
}
set_bit-Gentle (suc bit) false a b other = record {
  large = λ n.
      rw (set_bit-btx n (suc bit) false (omega arith)) (bit_of n _ (btr-bt_ne (suc bit) 7 n other));
  target = λ n.
      rw (set_bit-btx n (suc bit) false (omega arith))
        (gentle_of n _ (btr-high 12 (suc bit) n b) (omega (arith, btr-suc n bit)));
  word = λ n l.
      rw (set_bit-btx n (suc bit) false (omega arith))
        (omega (arith, btr-high 64 (suc bit) n (omega arith)));
}

-- Tables on which every walk goes as on the old ones.
pub record SameWalks (tables tables' : ℕ → ℕ → ℕ) : Type 0 where
  pub enters : (t i : ℕ) → enter tables' t i ≡ enter tables t i
  pub words : ((t i : ℕ) → tables t i < u64_mod) → (t i : ℕ) → tables' t i < u64_mod
  pub large : (t i : ℕ) → tables' t i / 2 ^ 7 % 2 ≡ tables t i / 2 ^ 7 % 2

pub SameWalks-trans : (a b c : ℕ → ℕ → ℕ) → SameWalks a b → SameWalks b c → SameWalks a c
SameWalks-trans a b c x y = record {
  enters = λ t i. y.enters t i ∙ x.enters t i;
  words = λ h. y.words (x.words h);
  large = λ t i. y.large t i ∙ x.large t i;
}

pub on_entry-SameWalks :
    (change : ℕ → ℕ) (table index : ℕ) (tables : ℕ → ℕ → ℕ)
    → Gentle change
    → SameWalks tables (on_entry change table index tables)
on_entry-SameWalks change table index tables g = record {
  enters = λ t i. ground (arith, g.target (tables table index));
  words = λ h t i. ground (arith, g.word (tables table index), h table index, h t i);
  large = λ t i. ground (arith, g.large (tables table index));
}

pub on_walk-SameWalks :
    (upper lower : ℕ → ℕ) (l4 address : ℕ) (tables : ℕ → ℕ → ℕ)
    → Gentle upper
    → Gentle lower
    → SameWalks tables (on_walk upper lower l4 address tables)
unfolding on_walk
on_walk-SameWalks upper lower l4 address tables gu gl =
    SameWalks-trans _ _ _ (on_entry-SameWalks upper _ _ _ gu) (
      SameWalks-trans _ _ _ (on_entry-SameWalks upper _ _ _ gu) (
        SameWalks-trans _ _ _ (on_entry-SameWalks upper _ _ _ gu)
          (on_entry-SameWalks lower _ _ _ gl)))

pub walks-SameWalks :
    (upper lower : ℕ → ℕ) (l4 : ℕ) (address : ℕ → ℕ) (rounds i : ℕ) (tables : ℕ → ℕ → ℕ)
    → Gentle upper
    → Gentle lower
    → SameWalks tables (for_range (λ j. on_walk upper lower l4 (address j)) rounds i tables)
walks-SameWalks upper lower l4 address rounds i tables gu gl =
    for_range-keeps (λ j. on_walk upper lower l4 (address j)) (λ now. SameWalks tables now)
      (λ j now same.
        SameWalks-trans tables now _ same (on_walk-SameWalks upper lower l4 (address j) now gu gl))
      rounds i tables (record { enters = λ t j. refl; words = λ h. h; large = λ t j. refl })

pub WellFormed-SameWalks :
    (level : ℕ → ℕ) (s : Paging) (tables : ℕ → ℕ → ℕ)
    → WellFormed level s
    → SameWalks s.tables tables
    → WellFormed level (record s { tables = tables })
WellFormed-SameWalks level s tables w same = record {
  ready = w.ready;
  small = w.small;
  words = same.words w.words;
  no_large = λ t i two h. same.large t i ∙ w.no_large t i two h;
  aligned = w.aligned;
  owned = w.owned;
  child = λ t i n c l b e. w.child t i n c l b (sym (same.enters t i) ∙ e);
  tree = λ t i u j c lt lu li lj e e'.
      w.tree t i u j c lt lu li lj (sym (same.enters t i) ∙ e) (sym (same.enters u j) ∙ e');
}
