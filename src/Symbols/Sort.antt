-- ===== src/Symbols/Sort.antt =====
-- The insertion sort of `symbol_init`.
use visual_os.Base.{
  ℕ, zero, suc, ◌+◌, ◌-◌, ◌^◌, ◌<◌, ◌≡◌, ◌≢◌, refl, true, false, Option, some, List, [], ◌∷◌,
  length, get_elem?, ◌==◌, u64_mod, arith, ap, ◌∙◌, sym, inl, inr, Bool-cases,
}
use mathlib.Core.Option.{none-ne-some, some-injective}
use native.Mathlib.Decide.{dec_lt}
use visual_os.Symbols.{Elf64Symbol, SymbolMap, insert_symbol, symbol_count, sort_loop}
use visual_os.Symbols.Resolve.{IsSorted}
use visual_os.Symbols.Insert.{Inserted, insert_symbol-Inserted, Inserted-IsSorted}

-- One of the first `num` entries.
abbrev pub Holds : (ℕ → SymbolMap) → ℕ → SymbolMap → Type 0
Holds map num x = (k : ℕ) × (k < num) × (map k ≡ x)

-- The map after the sort of the symbols `symbols`, which begin at entry `i` of the symbol table, with
-- the `ai` entries of `old` sorted before.
pub record Sorted (symbols : List Elf64Symbol) (i ai : ℕ) (old : ℕ → SymbolMap)
    (r : Option ((ℕ → SymbolMap) × ℕ)) : Type 0 where
  pub new : ℕ → SymbolMap
  pub run : r ≡ some (new, ai + symbol_count symbols)
  pub sorted : IsSorted new (ai + symbol_count symbols)
  pub keeps : (k : ℕ) → k < ai → Holds new (ai + symbol_count symbols) (old k)
  pub stores :
      (p : ℕ) (s : Elf64Symbol)
      → get_elem? symbols p ≡ some s
      → s.st_value ≢ 0
      → Holds new
          (ai + symbol_count symbols)
          (record { address = s.st_value; symbol_index = i + p })

Inserted-Holds :
    (old new : ℕ → SymbolMap) (n : ℕ) (x : SymbolMap)
    → Inserted old new n x
    → (k : ℕ) → k < n
    → Holds new (suc n) (old k)
Inserted-Holds old new n x r k h = elim (dec_lt k r.place) [
  | yes before ↦ (k, omega arith, r.lower k before)
  | no after ↦ (k + 1, omega arith, r.upper k (omega arith) h)
]

sort_loop-skip :
    (s : Elf64Symbol) (rest : List Elf64Symbol) (i ai : ℕ) (map : ℕ → SymbolMap)
    → (s.st_value == 0) ≡ true
    → sort_loop (s ∷ rest) i ai map ≡ sort_loop rest (i + 1) ai map
unfolding sort_loop
sort_loop-skip s rest i ai map h = rw (h, sort_loop) refl

sort_loop-insert :
    (s : Elf64Symbol) (rest : List Elf64Symbol) (i ai : ℕ) (map new : ℕ → SymbolMap)
    → (s.st_value == 0) ≡ false
    → insert_symbol s.st_value i ai map ≡ some new
    → sort_loop (s ∷ rest) i ai map ≡ sort_loop rest (i + 1) (ai + 1) new
unfolding sort_loop
sort_loop-insert s rest i ai map new h run = rw (h, run, sort_loop) refl

count-skip :
    (s : Elf64Symbol) (rest : List Elf64Symbol)
    → (s.st_value == 0) ≡ true
    → symbol_count (s ∷ rest) ≡ symbol_count rest
unfolding symbol_count
count-skip s rest h = rw h refl

count-insert :
    (s : Elf64Symbol) (rest : List Elf64Symbol) (ai : ℕ)
    → (s.st_value == 0) ≡ false
    → ai + symbol_count (s ∷ rest) ≡ ai + 1 + symbol_count rest
unfolding symbol_count
count-insert s rest ai h = rw h (omega arith)

skip-Sorted :
    (s : Elf64Symbol) (rest : List Elf64Symbol) (i ai : ℕ) (old : ℕ → SymbolMap)
    → (s.st_value == 0) ≡ true
    → Sorted rest (i + 1) ai old (sort_loop rest (i + 1) ai old)
    → Sorted (s ∷ rest) i ai old (sort_loop (s ∷ rest) i ai old)
skip-Sorted s rest i ai old zero_value r = rw (sort_loop-skip s rest i ai old zero_value) (record {
  new = r.new;
  run = rw same r.run;
  sorted = rw same r.sorted;
  keeps = rw same r.keeps;
  stores = λ p x at_p nonzero. rw same (stored p x at_p nonzero);
})
  where
    same : symbol_count (s ∷ rest) ≡ symbol_count rest
    same = count-skip s rest zero_value

    stored :
        (p : ℕ) (x : Elf64Symbol)
        → get_elem? (s ∷ rest) p ≡ some x
        → x.st_value ≢ 0
        → Holds r.new
            (ai + symbol_count rest)
            (record { address = x.st_value; symbol_index = i + p })
    stored zero x at_p nonzero =
        let e : s ≡ x = some-injective s x at_p in
        absurd (
          nonzero (
            let z : s.st_value ≡ 0 = ground arith in
            sym (ap (λ (y : Elf64Symbol). y.st_value) e) ∙ z))
    stored (suc p) x at_p nonzero =
        let next : i + 1 + p ≡ i + suc p = omega arith in rw next at (r.stores p x at_p nonzero)

insert-Sorted :
    (s : Elf64Symbol) (rest : List Elf64Symbol) (i ai : ℕ) (old mid : ℕ → SymbolMap)
    → (s.st_value == 0) ≡ false
    → insert_symbol s.st_value i ai old ≡ some mid
    → Inserted old mid ai (record { address = s.st_value; symbol_index = i })
    → Sorted rest (i + 1) (ai + 1) mid (sort_loop rest (i + 1) (ai + 1) mid)
    → Sorted (s ∷ rest) i ai old (sort_loop (s ∷ rest) i ai old)
insert-Sorted s rest i ai old mid has_value run put r =
    rw (sort_loop-insert s rest i ai old mid has_value run) (record {
      new = r.new;
      run = rw more r.run;
      sorted = rw more r.sorted;
      keeps = λ k h.
          let (at, inside, e) =
            Inserted-Holds old mid ai (record { address = s.st_value; symbol_index = i }) put k h in
          rw more (rw e at (r.keeps at (omega arith)));
      stores = λ p x at_p nonzero. rw more (stored p x at_p nonzero);
    })
  where
    more : ai + symbol_count (s ∷ rest) ≡ ai + 1 + symbol_count rest
    more = count-insert s rest ai has_value

    stored :
        (p : ℕ) (x : Elf64Symbol)
        → get_elem? (s ∷ rest) p ≡ some x
        → x.st_value ≢ 0
        → Holds r.new
            (ai + 1 + symbol_count rest)
            (record { address = x.st_value; symbol_index = i + p })
    stored zero x at_p nonzero =
        let e : s ≡ x = some-injective s x at_p in
        let first : i + 0 ≡ i = omega arith in
        rw (sym e, first, sym put.here) (r.keeps put.place (omega (arith, put.inside)))
    stored (suc p) x at_p nonzero =
        let next : i + 1 + p ≡ i + suc p = omega arith in rw next at (r.stores p x at_p nonzero)

-- With sorted entries before, an entry of address 0 in front of the map, and fewer than 2 ^ 63 symbols,
-- the sort ends: the map is sorted, has one more entry for each symbol with a value, and holds the
-- old entries and every symbol with a value, under its index in the symbol table.
pub sort_loop-Sorted :
    (symbols : List Elf64Symbol) (i ai : ℕ) (old : ℕ → SymbolMap)
    → ai + length symbols < 2 ^ 63
    → IsSorted old ai
    → (old (u64_mod - 1)).address ≡ 0
    → Sorted symbols i ai old (sort_loop symbols i ai old)
sort_loop-Sorted [] i ai old few sorted front =
    unfold sort_loop symbol_count in
    record {
      new = old;
      run = let e : ai + 0 ≡ ai = omega arith in rw e refl;
      sorted = let e : ai + 0 ≡ ai = omega arith in rw e sorted;
      keeps = λ k h. (k, omega arith, refl);
      stores = λ p s e. absurd (none-ne-some s e);
    }
sort_loop-Sorted (s ∷ rest) i ai old few sorted front = elim (Bool-cases (s.st_value == 0)) [
  | inl z ↦
      skip-Sorted s rest i ai old z
        (sort_loop-Sorted rest (i + 1) ai old (omega arith) sorted front)
  | inr v ↦
      let (mid, run, put) =
        insert_symbol-Inserted s.st_value i ai old (omega arith) sorted (omega (arith, front)) in
      let next : suc ai ≡ ai + 1 = omega arith in
      insert-Sorted s rest i ai old mid v run put (
        sort_loop-Sorted rest (i + 1) (ai + 1) mid (omega arith)
          (rw next at (
            Inserted-IsSorted old mid ai (record { address = s.st_value; symbol_index = i }) sorted
              put))
          (ap (λ (m : SymbolMap). m.address) put.edge ∙ front))
]
